-- ===== src/Tls/Suites.antt =====
-- tls.go: the map `cipherSuites`, and the loops over a comma-separated list of its keys.
use ghostunnel.Prelude.{
  ℕ, Option, none, some, List, [], ◌∷◌, ◌++◌, if◌then◌else◌, Text, codes, text_eq, trim_space,
  Result, ok, err, ◌>>=◌,
}

-- The suites by their registered numbers, as `crypto/tls` defines them.
abbrev pub aes_suites : List ℕ
aes_suites =
    0xc02b  -- TLS_ECDHE_ECDSA_WITH_AES_128_GCM_SHA256
    ∷ 0xc02f  -- TLS_ECDHE_RSA_WITH_AES_128_GCM_SHA256
    ∷ 0xc02c  -- TLS_ECDHE_ECDSA_WITH_AES_256_GCM_SHA384
    ∷ 0xc030  -- TLS_ECDHE_RSA_WITH_AES_256_GCM_SHA384
    ∷ []

abbrev pub chacha_suites : List ℕ
chacha_suites =
    0xcca9  -- TLS_ECDHE_ECDSA_WITH_CHACHA20_POLY1305
    ∷ 0xcca8  -- TLS_ECDHE_RSA_WITH_CHACHA20_POLY1305
    ∷ []

abbrev pub cbc_suites : List ℕ
cbc_suites =
    0xc023  -- TLS_ECDHE_ECDSA_WITH_AES_128_CBC_SHA256
    ∷ 0xc027  -- TLS_ECDHE_RSA_WITH_AES_128_CBC_SHA256
    ∷ 0xc009  -- TLS_ECDHE_ECDSA_WITH_AES_128_CBC_SHA
    ∷ 0xc013  -- TLS_ECDHE_RSA_WITH_AES_128_CBC_SHA
    ∷ 0xc00a  -- TLS_ECDHE_ECDSA_WITH_AES_256_CBC_SHA
    ∷ 0xc014  -- TLS_ECDHE_RSA_WITH_AES_256_CBC_SHA
    ∷ 0xc012  -- TLS_ECDHE_RSA_WITH_3DES_EDE_CBC_SHA
    ∷ []

abbrev pub rsa_suites : List ℕ
rsa_suites =
    0x009c  -- TLS_RSA_WITH_AES_128_GCM_SHA256
    ∷ 0x009d  -- TLS_RSA_WITH_AES_256_GCM_SHA384
    ∷ 0x003c  -- TLS_RSA_WITH_AES_128_CBC_SHA256
    ∷ 0x002f  -- TLS_RSA_WITH_AES_128_CBC_SHA
    ∷ 0x0035  -- TLS_RSA_WITH_AES_256_CBC_SHA
    ∷ 0x000a  -- TLS_RSA_WITH_3DES_EDE_CBC_SHA
    ∷ []

unfoldable pub cipher_suites : Text → Option (List ℕ)
cipher_suites name =
    if text_eq name (codes "AES")
    then some aes_suites
    else if text_eq name (codes "CHACHA")
    then some chacha_suites
    else if text_eq name (codes "CBC")
    then some cbc_suites
    else if text_eq name (codes "RSA")
    then some rsa_suites
    else none

-- The first part of the list that is no key of the map, as the error names it.
pub data SuiteError : Type 0 where
  invalid_suite : Text → SuiteError

abbrev pub found : Text → Option (List ℕ) → Result SuiteError (List ℕ)
found suite none = err (invalid_suite suite)
found suite (some ciphers) = ok ciphers

-- The loop of both functions that validate flags.
unfoldable pub check_suites : List Text → Result SuiteError (Unit {0})
check_suites [] = ok tt
check_suites (suite ∷ suites) = do
  _ ← found suite (cipher_suites (trim_space suite))
  check_suites suites

-- The loop of `buildConfig`; `suites` is the slice that grows.
unfoldable pub collect_suites : List ℕ → List Text → Result SuiteError (List ℕ)
collect_suites suites [] = ok suites
collect_suites suites (suite ∷ rest) = do
  ciphers ← found suite (cipher_suites (trim_space suite))
  collect_suites (suites ++ ciphers) rest
