-- ===== src/Tunnel/Refine.antt =====
-- The goroutines of a tunnel implement what it promises.
use ghostunnel.Prelude.{
  ℕ, suc, Bool-cases, ◌≡◌, ◌≢◌, refl, sym, subst, ap, ap₂, ◌∙◌, ◌⊎◌, inl, inr, Bool, true, false,
  List, ◌∷◌, ◌++◌, Option, none, Result, ok, err, panic, arith,
}
use ghostunnel.Certloader.Source.{TlsCertificate, LoadError}
use ghostunnel.Certloader.Reload.{Certificate, get_certificate}
use ghostunnel.Certloader.Store.{store, get_certificate-store}
use ghostunnel.Proxy.Steps.{
  Phase, handshaking, dialing, writing_header, ready, fusing, failed, closed, State, Step, accept,
  accept_error, accept_return, handshake_ok, handshake_error, dial_ok, dial_error, header_ok,
  header_error, serve, fused, shutdown_load, shutdown_store, shutdown_close, shutdown_done,
}
use ghostunnel.Proxy.Counts.{total, total-moved, is_fusing}
use ghostunnel.Tunnel.Steps.{
  ReloadStage, idle, Main, preparing, starting, stopping, waiting, exited, forced, handling, Tunnel,
  is_running, is_serving, ReloadStep, mark, load_cert, store_cert, unmark, TunnelStep, start_error,
  start_accept, listen, timer_step, refresh_step, shutdown_signal, proxy_step, handler_return,
  wait_return, force_exit, Runs,
}
use ghostunnel.Tunnel.Invariant.{ReloadStep-kept, Runs-Consistent}
use ghostunnel.Proxy.Wait.{WaitReturns-iff}
use ghostunnel.Tunnel.Views.{
  Alive, Mode, Open, View, Move, keep, renew, come, join, leave, stop, finish, kill, mode_at,
  mode_of, view,
}
use ghostunnel.Tunnel.Serving.{Consistent-Seen}

-- What a step of the proxy changes in the view.
data Change (s t : State) : Type 0 where
  same :
      total is_fusing t.handlers ≡ total is_fusing s.handlers
      → t.listening ≡ s.listening
      → Change s t
  joined :
      total is_fusing t.handlers ≡ suc (total is_fusing s.handlers)
      → t.listening ≡ s.listening
      → Change s t
  left :
      total is_fusing s.handlers ≡ suc (total is_fusing t.handlers)
      → t.listening ≡ s.listening
      → Change s t
  shut : total is_fusing t.handlers ≡ total is_fusing s.handlers → t.listening ≡ false → Change s t

handler_same :
    (s : State) (before : List Phase) (p q : Phase) (after : List Phase)
    → s.handlers ≡ before ++ p ∷ after
    → is_fusing p ≡ is_fusing q
    → total is_fusing (before ++ q ∷ after) ≡ total is_fusing s.handlers
handler_same s before p q after e f =
    let h = total-moved is_fusing s.handlers before p q after e in omega arith

Step-Change : {proxy_protocol : Bool} (s t : State) → Step proxy_protocol s t → Change s t
unfolding total
Step-Change s _ (accept a l) = same (omega arith) refl
Step-Change s _ (accept_error a q) = same refl refl
Step-Change s _ (accept_return a q) = same refl refl
Step-Change s _ (handshake_ok b a c e h) = same (handler_same s b handshaking dialing a e refl) refl
Step-Change s _ (handshake_error b a c x e h) =
    same (handler_same s b handshaking failed a e refl) refl
Step-Change {proxy_protocol = true} s _ (dial_ok b a e) =
    same (handler_same s b dialing writing_header a e refl) refl
Step-Change {proxy_protocol = false} s _ (dial_ok b a e) =
    same (handler_same s b dialing ready a e refl) refl
Step-Change s _ (dial_error b a e) = same (handler_same s b dialing failed a e refl) refl
Step-Change s _ (header_ok b a e) = same (handler_same s b writing_header ready a e refl) refl
Step-Change s _ (header_error b a e) = same (handler_same s b writing_header failed a e refl) refl
Step-Change s _ (serve b a e) =
    joined (let h = total-moved is_fusing s.handlers b ready fusing a e in omega arith) refl
Step-Change s _ (fused b a e) =
    left (let h = total-moved is_fusing s.handlers b fusing closed a e in omega arith) refl
Step-Change s _ (shutdown_load e q) = same refl refl
Step-Change s _ (shutdown_store e) = same refl refl
Step-Change s _ (shutdown_close e) = shut refl refl
Step-Change s _ (shutdown_done e) = same refl refl

module _ {Key : Type 0} where
  running-mode : (m : Main Key) (l : Bool) → is_serving m ≡ true → mode_of m l ≡ mode_at l
  running-mode preparing l r = cc
  running-mode exited l r = cc
  running-mode forced l r = cc
  running-mode starting l r = refl
  running-mode stopping l r = refl
  running-mode waiting l r = refl
  running-mode (handling _) l r = refl

  running-up : (m : Main Key) (l : Bool) → is_running m ≡ true → Alive (mode_of m l)
  running-up preparing l r = tt
  running-up exited l r = cc
  running-up forced l r = cc
  running-up starting true r = tt
  running-up starting false r = tt
  running-up stopping true r = tt
  running-up stopping false r = tt
  running-up waiting true r = tt
  running-up waiting false r = tt
  running-up (handling _) true r = tt
  running-up (handling _) false r = tt

  serving-Open : (m : Main Key) (l : Bool) → is_serving m ≡ true → Open (mode_of m l)
  serving-Open m true r = inl (running-mode m true r)
  serving-Open m false r = inr (running-mode m false r)

  view_eq :
      {m n : Mode} {i j : ℕ} {c d : Option (TlsCertificate Key)}
      → m ≡ n
      → i ≡ j
      → c ≡ d
      → ◌≡◌ {A = View Key}
          (record { mode = m; live = i; cert = c })
          (record { mode = n; live = j; cert = d })
  view_eq e f g = cc

  to_view : {v w x : View Key} → w ≡ x → Move v w → Move v x
  to_view {v = v} e s = subst (Move v) e s

  proxy-Move :
      (t : Tunnel Key) (p : State)
      → is_serving t.main ≡ true
      → Change t.proxy p
      → Move (view t) (view (record t { proxy = p }))
  proxy-Move t p r (same n l) = to_view (view_eq (ap (mode_of t.main) (sym l)) (sym n) refl) keep
  proxy-Move t p r (joined n l) =
      to_view (view_eq (ap (mode_of t.main) (sym l)) (sym n) refl)
        (join (serving-Open t.main t.proxy.listening r))
  proxy-Move t p r (left n l) =
      to_view (view_eq (ap (mode_of t.main) (sym l)) refl refl)
        (leave (total is_fusing p.handlers) (serving-Open t.main t.proxy.listening r) n)
  proxy-Move t p r (shut n l) = elim (Bool-cases t.proxy.listening) [
    | inl b ↦
        to_view
          (view_eq (sym (running-mode t.main false r) ∙ ap (mode_of t.main) (sym l)) (sym n) refl)
          (stop (ap (mode_of t.main) b ∙ running-mode t.main true r))
    | inr b ↦ to_view (view_eq (ap (mode_of t.main) (b ∙ sym l)) (sym n) refl) keep
  ]

  store-Move :
      (t : Tunnel Key) (r : Result LoadError (TlsCertificate Key))
      → is_running t.main ≡ true
      → Move (view t) (view (record t { cert = store t.cert r }))
  unfolding store
  store-Move t (ok cert) r =
      to_view (view_eq refl refl (sym (get_certificate-store t.cert cert)))
        (renew cert (running-up t.main t.proxy.listening r))
  store-Move t (err e) r = keep
  store-Move t panic r = keep

  reload-Move :
      (t u : Tunnel Key) (from to : ReloadStage Key)
      → is_running t.main ≡ true
      → ReloadStep t from to u
      → Move (view t) (view u)
  reload-Move t _ _ _ r mark = keep
  reload-Move t _ _ _ r (load_cert source x e n) = keep
  reload-Move t _ _ _ r (store_cert x) = store-Move t x r
  reload-Move t _ _ _ r unmark = keep

  main-Move :
      (t : Tunnel Key) (m : Main Key)
      → mode_of m t.proxy.listening ≡ mode_of t.main t.proxy.listening
      → Move (view t) (view (record t { main = m }))
  main-Move t m e = to_view (view_eq (sym e) refl refl) keep

  -- Every step of a tunnel that runs, of any of its goroutines, is what the tunnel promises: nothing
  -- changes in what is seen of it, or it begins to accept connections, or the certificate is a new
  -- one, or a connection becomes live or stops being it, or the listener closes, or `run` returns, and
  -- that only where the listener has closed and no connection is live, or the process is aborted, by
  -- an error of the start or by the timer of the exit. After an end nothing that is seen changes.
  pub TunnelStep-Move :
      {timed proxy_protocol : Bool} (cert : Certificate Key) (t u : Tunnel Key)
      → get_certificate cert ≢ none
      → Runs timed proxy_protocol cert t
      → TunnelStep timed proxy_protocol t u
      → Move (view t) (view u)
  TunnelStep-Move cert t _ s r (start_error e) =
      kill (running-up t.main t.proxy.listening (ap is_running e))
  TunnelStep-Move cert t _ s r (start_accept e) =
      to_view
        (view_eq (sym (ap mode_at (Consistent-Seen t preparing e (Runs-Consistent cert t s r)).0))
          refl refl)
        (come (ap (λ (m : Main Key). mode_of m t.proxy.listening) e))
  TunnelStep-Move cert t _ s r (listen e) =
      main-Move t (handling idle) (ap (λ (m : Main Key). mode_of m t.proxy.listening) (sym e))
  TunnelStep-Move cert t _ s r (timer_step {u = u} from to _ b _ step) =
      reload-Move t u from to b step
  TunnelStep-Move cert t _ s r (refresh_step {u = u} from to e step) =
      let b : is_running t.main ≡ true = ap is_running e in
      let k : u.main ≡ handling from = (ReloadStep-kept t u from to step).0 ∙ e in
      to_view (view_eq (ap (λ (m : Main Key). mode_of m u.proxy.listening) k) refl refl)
        (reload-Move t u from to b step)
  TunnelStep-Move cert t _ s r (shutdown_signal e) =
      main-Move t stopping (ap (λ (m : Main Key). mode_of m t.proxy.listening) (sym e))
  TunnelStep-Move cert t _ s r (proxy_step p b step _) =
      proxy-Move t p b (Step-Change t.proxy p step)
  TunnelStep-Move cert t _ s r (handler_return e _) =
      main-Move t waiting (ap (λ (m : Main Key). mode_of m t.proxy.listening) (sym e))
  TunnelStep-Move cert t _ s r (wait_return e w) =
      let c = Runs-Consistent cert t s r in
      finish (ap₂ mode_of e (Consistent-Seen t waiting e c).0)
        ((WaitReturns-iff t.proxy c.reached).0 w).1
  TunnelStep-Move cert t _ s r (force_exit e) =
      kill (running-up t.main t.proxy.listening (ends t.main e))
    where
      ends : (m : Main Key) → (m ≡ stopping) ⊎ (m ≡ waiting) → is_running m ≡ true
      ends m (inl h) = ap is_running h
      ends m (inr h) = ap is_running h
