-- ===== src/Tunnel/Tests.antt =====
-- A tunnel with a keystore that is renewed, and a run of it that serves a client.
use ghostunnel.Prelude.{inr, ℕ, ◌≡◌, ◌≢◌, refl, inl, true, false, none, some, [], ◌∷◌, ok, codes}
use ghostunnel.Auth.Acl.{is_empty}
use ghostunnel.Certloader.Source.{X509, TlsCertificate, Source, read_pem}
use ghostunnel.Certloader.Keystore.{load_keystore, read_paths, encode_blocks}
use ghostunnel.Certloader.Reload.{Certificate, keystore, get_certificate, load}
use ghostunnel.Status.Handler.{new_status_handler, set_listening}
use ghostunnel.Proxy.Handshake.{raw_conn, force_handshake}
use ghostunnel.Proxy.Steps.{
  loaded, stored, listener_closed, returned, shutdown_load, shutdown_store, shutdown_close,
  shutdown_done, State, new_proxy, accepted, moved, dialing, ready, fusing, accept, handshake_ok,
  dial_ok, serve,
}
use ghostunnel.Tunnel.Steps.{
  stopping, waiting, exited, handler_return, wait_return, idle, starting, handling, stopping, Main,
  Tunnel, new_tunnel, TunnelStep, start_accept, listen, shutdown_signal, proxy_step, Runs, start,
  next, Leads,
}
use ghostunnel.Tunnel.Invariant.{Consistent, Runs-Consistent}
use ghostunnel.Tunnel.Serving.{Seen, Runs-Seen}
use ghostunnel.Tunnel.Ends.{CanEnd, Runs-CanEnd}
use ghostunnel.Certloader.Total.{Total}
use ghostunnel.Flags.Validate.{pos}
use ghostunnel.Signals.Handler.{Context, reload}
use ghostunnel.Tunnel.Calls.{with_context, context_of, reload-Leads}
use ghostunnel.Tunnel.Pages.{SaysAt, Runs-SaysAt, Early, timer-Early}
use ghostunnel.Tunnel.Race.{Overtaken, reload-Overtaken}
use ghostunnel.Tunnel.Views.{Move, view}
use ghostunnel.Tunnel.Refine.{TunnelStep-Move}

abbrev leaf_cert : X509
leaf_cert = record { raw = 1 ∷ []; common_name = codes "leaf"; public_key = 11 ∷ [] }

abbrev pair : ℕ → TlsCertificate ℕ
pair n = record { certificate = (1 ∷ []) ∷ []; private_key = some n; leaf = some leaf_cert }

-- Files that hold the pair with a key.
abbrev files : ℕ → Source ℕ
files n = record {
  open_file = λ _. ok tt;
  read_pem_blocks = λ _ _ _. record { blocks = (1 ∷ []) ∷ []; failed = false };
  read_x509_blocks = λ _. record { calls = []; failed = false };
  encode_to_memory = λ b. b;
  x509_key_pair = λ _ _. ok (pair n);
  parse_certificate = λ _. ok leaf_cert;
  pkcs11_key = λ _ _ _ _. ok n;
  identities = ok [];
}

abbrev cert : Certificate ℕ
cert = keystore (record {
  keystore_paths = codes "k.p12" ∷ [];
  keystore_password = [];
  format = [];
  cached = some (pair 7);
})

loads_8 : load (files 8) cert ≡ ok (pair 8)
unfolding load load_keystore read_paths read_pem encode_blocks is_empty
loads_8 = refl

loads_9 : load (files 9) cert ≡ ok (pair 9)
unfolding load load_keystore read_paths read_pem encode_blocks is_empty
loads_9 = refl

cert_served : get_certificate cert ≢ none
unfolding get_certificate
cert_served = λ h. cc

abbrev with_proxy : Main ℕ → State → Tunnel ℕ
with_proxy m p = record {
  status = set_listening new_status_handler;
  cert = cert;
  main = m;
  timer = idle;
  proxy = p;
}

files-Total : Total (files 8)
files-Total = record {
  open_file = λ _. tt;
  x509_key_pair = λ _ _ h. cc;
  parse_certificate = λ _. tt;
  pkcs11_key = λ _ _ _ _. tt;
  identities = tt;
}

abbrev context : Context ℕ
context = record {
  status = new_status_handler;
  status_http = true;
  shutdown_timeout = pos 5;
  cert = none;
}

reload-Leads_example :
    (u : Tunnel ℕ) × Leads true false (with_proxy (handling idle) new_proxy) u
    × (reload (files 8) (context_of context (with_proxy (handling idle) new_proxy))
        ≡ ok (context_of context u))
    × (u ≡ with_context (with_proxy (handling idle) new_proxy) u.status u.cert)
reload-Leads_example =
    reload-Leads true false (files 8) context (with_proxy (handling idle) new_proxy) files-Total
      refl

reload-Overtaken_example : Overtaken cert (pair 8) (pair 9)
reload-Overtaken_example =
    reload-Overtaken cert (files 8) (files 9) (pair 8) (pair 9) loads_8 loads_9

passes : (force_handshake raw_conn).1 ≡ ok tt
unfolding force_handshake
passes = refl

abbrev one : State
one = accepted new_proxy

abbrev fused_one : State
fused_one = record (moved one (fusing ∷ [])) { success_counter = 1; wait_group = 2 }

-- One connection is copied, and the main goroutine waits for a signal.
serving : Runs true false cert (with_proxy (handling idle) fused_one)
unfolding new_tunnel new_proxy
serving =
    next
      (next
        (next
          (next
            (next {u = with_proxy (handling idle) new_proxy}
              (next {u = record (with_proxy starting new_proxy) { status = new_status_handler }}
                start (start_accept refl))
              (listen refl))
            (proxy_step {t = with_proxy (handling idle) new_proxy} one refl (accept refl refl)
              (inl refl)))
          (proxy_step {t = with_proxy (handling idle) one} (moved one (dialing ∷ [])) refl
            (handshake_ok [] [] raw_conn refl passes) (inl refl)))
        (proxy_step {t = with_proxy (handling idle) (moved one (dialing ∷ []))}
          (moved one (ready ∷ [])) refl (dial_ok [] [] refl) (inl refl)))
      (proxy_step {t = with_proxy (handling idle) (moved one (ready ∷ []))} fused_one refl
        (serve [] [] refl) (inl refl))

Runs-Consistent_example : Consistent false (with_proxy (handling idle) fused_one)
Runs-Consistent_example =
    Runs-Consistent cert (with_proxy (handling idle) fused_one) cert_served serving

Runs-Seen_example : Seen {Key = ℕ} (handling idle) fused_one
Runs-Seen_example = Runs-Seen cert (with_proxy (handling idle) fused_one) cert_served serving

Runs-CanEnd_example : CanEnd true false (with_proxy (handling idle) fused_one)
Runs-CanEnd_example =
    Runs-CanEnd true false cert (with_proxy (handling idle) fused_one) cert_served serving
      (inl refl)

-- The proxy after `Shutdown`, with no connection.
abbrev shut : State
shut = record new_proxy { quit = true; listening = false; wait_group = 0; shutdown = returned }

drained : Runs true false cert (with_proxy waiting shut)
unfolding new_tunnel new_proxy
drained =
    next
      (next
        (next
          (next
            (next
              (next
                (next {u = with_proxy (handling idle) new_proxy}
                  (next {u = record (with_proxy starting new_proxy) { status = new_status_handler }}
                    start (start_accept refl))
                  (listen refl))
                (shutdown_signal {t = with_proxy (handling idle) new_proxy} refl))
              (proxy_step {t = with_proxy stopping new_proxy}
                (record new_proxy { shutdown = loaded }) refl (shutdown_load refl refl) (inr refl)))
            (proxy_step {t = with_proxy stopping (record new_proxy { shutdown = loaded })}
              (record new_proxy { shutdown = stored; quit = true }) refl (shutdown_store refl)
              (inr refl)))
          (proxy_step
            {t = with_proxy stopping (record new_proxy { shutdown = stored; quit = true })}
            (record new_proxy { shutdown = listener_closed; quit = true; listening = false }) refl
            (shutdown_close refl) (inr refl)))
        (proxy_step
          {t = with_proxy stopping
            (record new_proxy { shutdown = listener_closed; quit = true; listening = false })}
          shut refl (shutdown_done refl) (inr refl)))
      (handler_return {t = with_proxy stopping shut} refl refl)

ends : TunnelStep {Key = ℕ} true false (with_proxy waiting shut) (with_proxy exited shut)
ends = wait_return refl refl

TunnelStep-Move_example : Move (view (with_proxy waiting shut)) (view (with_proxy exited shut))
TunnelStep-Move_example =
    TunnelStep-Move cert (with_proxy waiting shut) (with_proxy exited shut) cert_served drained ends

-- The same without a timer, before a signal.
quiet : Runs false false cert (with_proxy (handling idle) new_proxy)
unfolding new_tunnel
quiet =
    next {u = with_proxy (handling idle) new_proxy}
      (next {u = record (with_proxy starting new_proxy) { status = new_status_handler }} start
        (start_accept refl))
      (listen refl)

Runs-SaysAt_example : SaysAt {Key = ℕ} (handling idle) (set_listening new_status_handler)
Runs-SaysAt_example = Runs-SaysAt cert (with_proxy (handling idle) new_proxy) quiet

timer-Early_example : Early cert (pair 8)
timer-Early_example = timer-Early cert (files 8) (pair 8) loads_8
