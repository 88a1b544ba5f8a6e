-- ===== src/Status/Laws.antt =====
-- status.go: what the page says of the tunnel.
use ghostunnel.Prelude.{
  ℕ, ◌≡◌, refl, ap, Bool, true, false, not, ◌&&◌, List, [], ◌∷◌, if◌then◌else◌, Text, codes, Result,
  ok, ◌>>=◌,
}
use ghostunnel.Status.Handler.{
  StatusHandler, StatusResponse, PageSource, Reply, new_status_handler, set_listening,
  set_reloading, is_nil, respond, or_panic, serve_http,
}

-- What happens to the handler: a call of `Listening` or of `Reloading`.
pub data Call : Type 0 where
  listening reloading : Call

-- The handler after a list of calls, the last one first.
unfoldable pub after : List Call → StatusHandler
unfolding new_status_handler
after [] = new_status_handler
after (listening ∷ calls) = set_listening (after calls)
after (reloading ∷ calls) = set_reloading (after calls)

-- `Listening` has been called.
unfoldable pub has_listened : List Call → Bool
has_listened [] = false
has_listened (listening ∷ calls) = true
has_listened (reloading ∷ calls) = has_listened calls

-- The last call was `Reloading`.
unfoldable pub last_reloading : List Call → Bool
last_reloading [] = false
last_reloading (listening ∷ calls) = false
last_reloading (reloading ∷ calls) = true

after-state :
    (calls : List Call)
    → ((after calls).listening ≡ has_listened calls)
      × ((after calls).reloading ≡ last_reloading calls)
unfolding after has_listened last_reloading new_status_handler set_listening set_reloading
after-state [] = (refl, refl)
after-state (listening ∷ calls) = (refl, refl)
after-state (reloading ∷ calls) = ((after-state calls).0, refl)

-- The message of the page by the calls before it.
abbrev pub message_after : List Call → Text
message_after calls =
    if not (has_listened calls)
    then codes "initializing"
    else if last_reloading calls
    then codes "reloading"
    else codes "listening"

-- After any calls of the two setters the page says that the tunnel is initializing until the first
-- call of `Listening`, then that it is reloading if the last call was `Reloading`, and else that it
-- is listening, whatever the state of the backend.
pub respond-message_after :
    (source : PageSource) (dialed : Result Text (Unit {0})) (calls : List Call)
    → (respond source dialed (after calls)).message ≡ message_after calls
unfolding respond
respond-message_after source dialed calls = let (l, r) = after-state calls in rw (l, r)

-- The reply is 200 exactly if the tunnel listens and the dial succeeded; the status in the page is
-- then "ok", and otherwise the reply is 503 and the status is "critical".
pub record Healthy (up : Bool) (resp : StatusResponse) (reply : Reply) : Type 0 where
  pub code : reply.code ≡ (if up then 200 else 503)
  pub status : resp.status ≡ (if up then codes "ok" else codes "critical")
  pub flag : resp.is_ok ≡ up

code_of : (up : Bool) → ◌≡◌ {A = ℕ} (if not up then 503 else 200) (if up then 200 else 503)
code_of true = refl
code_of false = refl

status_of :
    (l d : Bool)
    → (if (l && d) && d then codes "ok" else codes "critical")
      ≡ (if l && d then codes "ok" else codes "critical")
status_of true true = refl
status_of true false = refl
status_of false true = refl
status_of false false = refl

respond-Healthy :
    (source : PageSource) (dialed : Result Text (Unit {0})) (s : StatusHandler) (out : Text)
    → Healthy
        (s.listening && is_nil dialed)
        (respond source dialed s)
        (record { code = if not (respond source dialed s).is_ok then 503 else 200; body = out })
unfolding respond
respond-Healthy source dialed s out = record {
  code = code_of (s.listening && is_nil dialed);
  status = status_of s.listening (is_nil dialed);
  flag = refl;
}

-- If the response of the handler can be encoded, the page is served with that encoding for its body;
-- code, status and flag are those of a healthy tunnel if it listens and the dial succeeded, and
-- those of an unhealthy one otherwise.
pub serve_http-Healthy :
    (source : PageSource) (dialed : Result Text (Unit {0})) (s : StatusHandler) (out : Text)
    → source.marshal (respond source dialed s) ≡ ok out
    → (reply : Reply) × (serve_http source dialed s ≡ ok reply)
      × (reply.body ≡ out)
      × Healthy (s.listening && is_nil dialed) (respond source dialed s) reply
unfolding serve_http
serve_http-Healthy source dialed s out h = (
  record { code = if not (respond source dialed s).is_ok then 503 else 200; body = out },
  ap
      (λ (m : Result Text Text). or_panic m >>= λ body.
        ok
          (record { code = if not (respond source dialed s).is_ok then 503 else 200; body = body }))
      h,
  refl,
  respond-Healthy source dialed s out,
)
