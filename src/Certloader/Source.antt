-- ===== src/Certloader/Source.antt =====
-- certloader/certigo.go: reading certificates from files, and what the package calls elsewhere.
use ghostunnel.Prelude.{
  ℕ, Bool, true, false, ◌||◌, Option, none, some, List, [], ◌∷◌, ◌++◌, if◌then◌else◌, Text, Result,
  ok, err, panic, ◌>>=◌,
}
use ghostunnel.Auth.Acl.{is_empty}

-- An `x509.Certificate` as far as the package reads it: `Raw`, the common name of its subject, and
-- its public key.
pub record X509 : Type 0 where
  pub raw : Text
  pub common_name : Text
  pub public_key : Text

-- `tls.Certificate`; `Key` is a private key or a signer.
pub record TlsCertificate (Key : Type 0) : Type 0 where
  pub certificate : List Text
  pub private_key : Option Key
  pub leaf : Option X509

pub data LoadError : Type 0 where
  system_error : Text → LoadError
  read_error : Text → LoadError
  nothing_found : Text → LoadError
  identity_not_found : Text → LoadError
  not_supported : LoadError

-- What `certigo.ReadAsPEMFromFiles` does with an open file: the blocks that it hands to the
-- callback, and whether it then returns an error.
pub record PemRead : Type 0 where
  pub blocks : List Text
  pub failed : Bool

-- What `certigo.ReadAsX509FromFiles` does: the calls of the callback, an error for each `none`.
pub record X509Read : Type 0 where
  pub calls : List (Option X509)
  pub failed : Bool

-- The file system and the libraries, at the time of one load. An error of the system is its text.
pub record Source (Key : Type 0) : Type 0 where
  pub open_file : Text → Result Text (Unit {0})
  pub read_pem_blocks : (path password format : Text) → PemRead
  pub read_x509_blocks : (path : Text) → X509Read
  pub encode_to_memory : Text → Text
  pub x509_key_pair : (cert_pem key_pem : Text) → Result Text (TlsCertificate Key)
  pub parse_certificate : Text → Result Text X509
  pub pkcs11_key : (module_path token_label pin public_key : Text) → Result Text Key
  pub identities : Result Text (List (Result Text (List X509) × Result Text Key))

-- An error of a library, passed on.
abbrev pub lift {ℓ} : {A : Type ℓ} → Result Text A → Result LoadError A
lift (ok a) = ok a
lift (err e) = err (system_error e)
lift panic = panic

abbrev pub check_blocks : Text → PemRead → Result LoadError (List Text)
check_blocks path r =
    if r.failed
    then err (read_error path)
    else if is_empty r.blocks
    then err (nothing_found path)
    else ok r.blocks

-- The two slices that the callback of `readX509` fills.
pub record Parsed : Type 0 where
  pub errs : ℕ
  pub out : List X509

unfoldable pub callbacks : Parsed → List (Option X509) → Parsed
callbacks p [] = p
callbacks p (none ∷ calls) = callbacks (record p { errs = ℕ.suc p.errs }) calls
callbacks p (some cert ∷ calls) = callbacks (record p { out = p.out ++ cert ∷ [] }) calls

abbrev pub has_errors : ℕ → Bool
has_errors ℕ.zero = false
has_errors (ℕ.suc _) = true

abbrev pub check_parsed : Text → Bool → Parsed → Result LoadError (List X509)
check_parsed path failed p =
    if failed || has_errors p.errs
    then err (read_error path)
    else if is_empty p.out
    then err (nothing_found path)
    else ok p.out

module _ {Key : Type 0} (source : Source Key) where
  unfoldable pub read_pem : (path password format : Text) → Result LoadError (List Text)
  read_pem path password format = do
    _ ← lift (source.open_file path)
    check_blocks path (source.read_pem_blocks path password format)

  unfoldable pub read_x509 : (path : Text) → Result LoadError (List X509)
  unfolding callbacks
  read_x509 path = do
    _ ← lift (source.open_file path)
    check_parsed path (source.read_x509_blocks path).failed
        (callbacks (record { errs = 0; out = [] }) (source.read_x509_blocks path).calls)
