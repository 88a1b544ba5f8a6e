-- ===== src/Tls/Tests.antt =====
-- tls.go: a list of cipher suites with spaces, and a pool of certificates.
use ghostunnel.Prelude.{◌≡◌, refl, ℕ, [], some, Text, codes, text_eq, split, trim_space, ok, err}
use ghostunnel.Tls.Suites.{cipher_suites, check_suites}
use ghostunnel.Tls.Config.{CaSource}

abbrev suites : Text
suites = codes "AES, CHACHA"

abbrev pools : CaSource ℕ
pools = record { system_cert_pool = ok 1; read_file = λ _. err []; certs_from_pem = λ _. some 2 }

checked : check_suites (split suites b',') ≡ ok tt
unfolding check_suites split trim_space cipher_suites text_eq
checked = refl
