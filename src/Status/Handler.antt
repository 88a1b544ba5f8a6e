-- ===== src/Status/Handler.antt =====
-- status.go: the status handler, its two setters and its page.
use ghostunnel.Prelude.{
  ℕ, Bool, true, false, not, ◌&&◌, [], if◌then◌else◌, Text, codes, Result, ok, err, panic, ◌>>=◌,
}

-- `statusHandler`; the mutex makes each of the methods below one step, and the dialer is an argument
-- of the page.
pub record StatusHandler : Type 0 where
  pub listening : Bool
  pub reloading : Bool

-- The page before it is encoded as JSON.
pub record StatusResponse : Type 0 where
  pub is_ok : Bool
  pub status : Text
  pub backend_ok : Bool
  pub backend_status : Text
  pub backend_error : Text
  pub time : ℕ
  pub hostname : Text
  pub message : Text
  pub revision : Text
  pub compiler : Text

-- The clock, the build, the system, and the encoder of JSON.
pub record PageSource : Type 0 where
  pub now : ℕ
  pub version : Text
  pub go_version : Text
  pub hostname : Result Text Text
  pub marshal : StatusResponse → Result Text Text

-- The status code and the body.
pub record Reply : Type 0 where
  pub code : ℕ
  pub body : Text

unfoldable pub new_status_handler : StatusHandler
new_status_handler = record { listening = false; reloading = false }

unfoldable pub set_listening : StatusHandler → StatusHandler
set_listening s = record { listening = true; reloading = false }

unfoldable pub set_reloading : StatusHandler → StatusHandler
set_reloading s = record s { reloading = true }

abbrev pub is_nil {ℓ} : {A : Type ℓ} → Result Text A → Bool
is_nil (ok _) = true
is_nil (err _) = false
is_nil panic = false

abbrev pub error_text {ℓ} : {A : Type ℓ} → Result Text A → Text
error_text (ok _) = []
error_text (err e) = e
error_text panic = []

abbrev pub host_of : Result Text Text → Text
host_of (ok name) = name
host_of (err _) = []
host_of panic = []

abbrev pub message_of : StatusHandler → Text
message_of s =
    if not s.listening
    then codes "initializing"
    else if s.reloading
    then codes "reloading"
    else codes "listening"

unfoldable pub respond : PageSource → Result Text (Unit {0}) → StatusHandler → StatusResponse
respond source dialed s = record {
  is_ok = s.listening && is_nil dialed;
  status = if (s.listening && is_nil dialed) && is_nil dialed then codes "ok" else codes "critical";
  backend_ok = is_nil dialed;
  backend_status = if is_nil dialed then codes "ok" else codes "critical";
  backend_error = error_text dialed;
  time = source.now;
  hostname = host_of source.hostname;
  message = message_of s;
  revision = source.version;
  compiler = source.go_version;
}

-- `panicOnError` after the encoding.
abbrev pub or_panic : Result Text Text → Result Text Text
or_panic (ok out) = ok out
or_panic (err _) = panic
or_panic panic = panic

-- `dialed` is what the dialer of the backend came back with.
unfoldable pub serve_http : PageSource → Result Text (Unit {0}) → StatusHandler → Result Text Reply
serve_http source dialed s = do
  let resp = respond source dialed s
  out ← or_panic (source.marshal resp)
  ok (record { code = if not resp.is_ok then 503 else 200; body = out })
