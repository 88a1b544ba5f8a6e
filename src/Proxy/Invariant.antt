-- ===== src/Proxy/Invariant.antt =====
-- proxy/proxy.go: what holds of the proxy's state at every time.
use ghostunnel.Prelude.{
  ℕ, ◌+◌, ◌≡◌, refl, ap, ◌∙◌, ◌⊎◌, inl, inr, Bool, true, false, List, ◌∷◌, ◌++◌, arith,
}
use ghostunnel.Proxy.Steps.{
  Phase, handshaking, dialing, writing_header, ready, fusing, failed, closed, Stage, State,
  new_proxy, Step, accept, accept_error, accept_return, handshake_ok, handshake_error, dial_ok,
  dial_error, header_ok, header_error, serve, fused, shutdown_load, shutdown_store, shutdown_close,
  shutdown_done, Reachable, start, next,
}
use ghostunnel.Proxy.Counts.{
  total, total-append, total-moved, is_any, is_fusing, is_served, is_open, held, quit_at,
  listening_at,
}

-- The fields that only `Shutdown` and the accept loop change.
pub record Stages (s : State) : Type 0 where
  pub quit : s.quit ≡ quit_at s.shutdown
  pub listening : s.listening ≡ listening_at s.shutdown
  pub loop : (s.accepting ≡ true) ⊎ (s.quit ≡ true)

-- The wait group and the counters count handlers.
pub record Counted (s : State) : Type 0 where
  pub wait_group : s.wait_group ≡ held s.shutdown + total is_fusing s.handlers
  pub opened : s.open_counter ≡ total is_open s.handlers
  pub all : s.total_counter ≡ total is_any s.handlers
  pub served : s.success_counter ≡ total is_served s.handlers

Step-Stages : {proxy_protocol : Bool} (s t : State) → Step proxy_protocol s t → Stages s → Stages t
Step-Stages s _ (accept a l) i = record { quit = i.quit; listening = i.listening; loop = i.loop }
Step-Stages s _ (accept_error a q) i = record {
  quit = i.quit;
  listening = i.listening;
  loop = i.loop;
}
Step-Stages s _ (accept_return a q) i = record {
  quit = i.quit;
  listening = i.listening;
  loop = inr q;
}
Step-Stages s _ (handshake_ok b a c e h) i = record {
  quit = i.quit;
  listening = i.listening;
  loop = i.loop;
}
Step-Stages s _ (handshake_error b a c x e h) i = record {
  quit = i.quit;
  listening = i.listening;
  loop = i.loop;
}
Step-Stages s _ (dial_ok b a e) i = record { quit = i.quit; listening = i.listening; loop = i.loop }
Step-Stages s _ (dial_error b a e) i = record {
  quit = i.quit;
  listening = i.listening;
  loop = i.loop;
}
Step-Stages s _ (header_ok b a e) i = record {
  quit = i.quit;
  listening = i.listening;
  loop = i.loop;
}
Step-Stages s _ (header_error b a e) i = record {
  quit = i.quit;
  listening = i.listening;
  loop = i.loop;
}
Step-Stages s _ (serve b a e) i = record { quit = i.quit; listening = i.listening; loop = i.loop }
Step-Stages s _ (fused b a e) i = record { quit = i.quit; listening = i.listening; loop = i.loop }
Step-Stages s _ (shutdown_load e q) i = record {
  quit = i.quit ∙ ap quit_at e;
  listening = i.listening ∙ ap listening_at e;
  loop = i.loop;
}
Step-Stages s _ (shutdown_store e) i = record {
  quit = refl;
  listening = i.listening ∙ ap listening_at e;
  loop = inr refl;
}
Step-Stages s _ (shutdown_close e) i = record {
  quit = i.quit ∙ ap quit_at e;
  listening = refl;
  loop = i.loop;
}
Step-Stages s _ (shutdown_done e) i = record {
  quit = i.quit ∙ ap quit_at e;
  listening = i.listening ∙ ap listening_at e;
  loop = i.loop;
}

-- A handler goes from `p` to `q`, and the wait group and the counters change with it.
handler-Counted :
    (s : State) (before : List Phase) (p q : Phase) (after : List Phase)
    (wg opened served errors timeouts : ℕ)
    → s.handlers ≡ before ++ p ∷ after
    → is_any p ≡ is_any q
    → wg + is_fusing p ≡ s.wait_group + is_fusing q
    → opened + is_open p ≡ s.open_counter + is_open q
    → served + is_served p ≡ s.success_counter + is_served q
    → Counted s
    → Counted (record s {
      handlers = before ++ q ∷ after;
      wait_group = wg;
      open_counter = opened;
      success_counter = served;
      error_counter = errors;
      timeout_counter = timeouts;
    })
handler-Counted s before p q after wg opened served errors timeouts e _ f o v i = record {
  wait_group =
      let h = total-moved is_fusing s.handlers before p q after e in
      let k = i.wait_group in omega arith;
  opened =
      let h = total-moved is_open s.handlers before p q after e in let k = i.opened in omega arith;
  all = let h = total-moved is_any s.handlers before p q after e in let k = i.all in omega arith;
  served =
      let h = total-moved is_served s.handlers before p q after e in
      let k = i.served in omega arith;
}

-- A sum with the weight of one handler taken out.
pub total-split :
    (w : Phase → ℕ) (s : State) (before : List Phase) (p : Phase) (after : List Phase)
    → s.handlers ≡ before ++ p ∷ after
    → total w s.handlers ≡ w p + total w (before ++ after)
total-split w s before p after e = ap (total w) e ∙ total-append w before p after

Step-Counted :
    {proxy_protocol : Bool} (s t : State) → Step proxy_protocol s t → Counted s → Counted t
unfolding total
Step-Counted s _ (accept a l) i = record {
  wait_group = let k = i.wait_group in omega arith;
  opened = let k = i.opened in omega arith;
  all = let k = i.all in omega arith;
  served = let k = i.served in omega arith;
}
Step-Counted s _ (accept_error a q) i = record {
  wait_group = i.wait_group;
  opened = i.opened;
  all = i.all;
  served = i.served;
}
Step-Counted s _ (accept_return a q) i = record {
  wait_group = i.wait_group;
  opened = i.opened;
  all = i.all;
  served = i.served;
}
Step-Counted s _ (handshake_ok b a c e h) i =
    handler-Counted s b handshaking dialing a _ _ _ _ _ e refl refl refl refl i
Step-Counted s _ (handshake_error b a c x e h) i =
    let m = total-split is_open s b handshaking a e in
    let k = i.opened in
    handler-Counted s b handshaking failed a _ _ _ _ _ e refl refl (omega arith) refl i
Step-Counted {proxy_protocol = true} s _ (dial_ok b a e) i =
    handler-Counted s b dialing writing_header a _ _ _ _ _ e refl refl refl refl i
Step-Counted {proxy_protocol = false} s _ (dial_ok b a e) i =
    handler-Counted s b dialing ready a _ _ _ _ _ e refl refl refl refl i
Step-Counted s _ (dial_error b a e) i =
    let m = total-split is_open s b dialing a e in
    let k = i.opened in
    handler-Counted s b dialing failed a _ _ _ _ _ e refl refl (omega arith) refl i
Step-Counted s _ (header_ok b a e) i =
    handler-Counted s b writing_header ready a _ _ _ _ _ e refl refl refl refl i
Step-Counted s _ (header_error b a e) i =
    let m = total-split is_open s b writing_header a e in
    let k = i.opened in
    handler-Counted s b writing_header failed a _ _ _ _ _ e refl refl (omega arith) refl i
Step-Counted s _ (serve b a e) i =
    handler-Counted s b ready fusing a _ _ _ _ _ e refl (omega arith) refl (omega arith) i
Step-Counted s _ (fused b a e) i =
    let m = total-split is_open s b fusing a e in
    let n = total-split is_fusing s b fusing a e in
    let k = i.opened in
    let l = i.wait_group in
    handler-Counted s b fusing closed a _ _ _ _ _ e refl (omega arith) (omega arith) refl i
Step-Counted s _ (shutdown_load e q) i = record {
  wait_group = i.wait_group ∙ ap (λ (x : Stage). held x + total is_fusing s.handlers) e;
  opened = i.opened;
  all = i.all;
  served = i.served;
}
Step-Counted s _ (shutdown_store e) i = record {
  wait_group = i.wait_group ∙ ap (λ (x : Stage). held x + total is_fusing s.handlers) e;
  opened = i.opened;
  all = i.all;
  served = i.served;
}
Step-Counted s _ (shutdown_close e) i = record {
  wait_group = i.wait_group ∙ ap (λ (x : Stage). held x + total is_fusing s.handlers) e;
  opened = i.opened;
  all = i.all;
  served = i.served;
}
Step-Counted s _ (shutdown_done e) i = record {
  wait_group =
      let k : s.wait_group ≡ 1 + total is_fusing s.handlers =
        i.wait_group ∙ ap (λ (x : Stage). held x + total is_fusing s.handlers) e in
      omega arith;
  opened = i.opened;
  all = i.all;
  served = i.served;
}

-- At every time `quit` and the listener are as the call of `Shutdown` has left them, and the accept
-- loop has ended only after `quit` was set.
pub Reachable-Stages : {proxy_protocol : Bool} (s : State) → Reachable proxy_protocol s → Stages s
unfolding new_proxy
Reachable-Stages _ start = record { quit = refl; listening = refl; loop = inl refl }
Reachable-Stages t (next {s = s} r step) = Step-Stages s t step (Reachable-Stages s r)

-- At every time the wait group is the number of handlers in `fuse`, and one more until `Shutdown`
-- returns; the metric of open connections is the number of handlers that have not returned, that of
-- all connections the number of handlers, and that of successes the number that reached `fuse`.
pub Reachable-Counted : {proxy_protocol : Bool} (s : State) → Reachable proxy_protocol s → Counted s
unfolding new_proxy total
Reachable-Counted _ start = record { wait_group = refl; opened = refl; all = refl; served = refl }
Reachable-Counted t (next {s = s} r step) = Step-Counted s t step (Reachable-Counted s r)
