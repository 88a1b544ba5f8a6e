-- ===== src/Proxy/Steps.antt =====
-- proxy/proxy.go: the proxy's shared state, and the steps of the goroutines that share it: the accept
-- loop, a handler for each connection, and the one caller of `Shutdown`.
use ghostunnel.Prelude.{ℕ, ◌+◌, ◌-◌, ◌≡◌, Bool, true, false, List, [], ◌∷◌, ◌++◌, ok, err}
use ghostunnel.Proxy.Handshake.{Accepted, HandshakeError, force_handshake}

-- Where the handler of a connection is: before each of its calls, in `fuse`, or returned, without
-- or with having been in `fuse`.
pub data Phase : Type 0 where
  handshaking dialing writing_header ready fusing failed closed : Phase

-- Where the call of `Shutdown` is: not made, after the load of `quit`, after the store, after the
-- close of the listener, and returned.
pub data Stage : Type 0 where
  not_called loaded stored listener_closed returned : Stage

-- `quit` and `wait_group` are fields of `Proxy`; `accepting` says that the accept loop runs and
-- `listening` that the listener is open; the counters are the metrics.
pub record State : Type 0 where
  pub quit : Bool
  pub listening : Bool
  pub accepting : Bool
  pub wait_group : ℕ
  pub shutdown : Stage
  pub handlers : List Phase
  pub open_counter : ℕ
  pub total_counter : ℕ
  pub success_counter : ℕ
  pub error_counter : ℕ
  pub timeout_counter : ℕ

-- `New`, with `Accept` started.
unfoldable pub new_proxy : State
new_proxy = record {
  quit = false;
  listening = true;
  accepting = true;
  wait_group = 1;
  shutdown = not_called;
  handlers = [];
  open_counter = 0;
  total_counter = 0;
  success_counter = 0;
  error_counter = 0;
  timeout_counter = 0;
}

-- A new connection: both counters, and a goroutine.
abbrev pub accepted : State → State
accepted s = record s {
  handlers = handshaking ∷ s.handlers;
  open_counter = s.open_counter + 1;
  total_counter = s.total_counter + 1;
}

-- The handlers with the one at a place in another phase.
abbrev pub moved : State → List Phase → State
moved s handlers = record s { handlers = handlers }

-- A handler that returns early: the deferred decrement of the open connections.
abbrev pub dropped : State → List Phase → State
dropped s handlers = record s { handlers = handlers; open_counter = s.open_counter - 1 }

-- After the dial, by `proxyProtocol`.
abbrev pub after_dial : Bool → Phase
after_dial true = writing_header
after_dial false = ready

-- One step. A handler stands between the ones in `before` and `after`.
pub data Step (proxy_protocol : Bool) : State → State → Type 0 where
  accept :
      {s : State} → s.accepting ≡ true → s.listening ≡ true → Step proxy_protocol s (accepted s)
  accept_error :
      {s : State}
      → s.accepting ≡ true
      → s.quit ≡ false
      → Step proxy_protocol s (record s { error_counter = s.error_counter + 1 })
  accept_return :
      {s : State}
      → s.accepting ≡ true
      → s.quit ≡ true
      → Step proxy_protocol s (record s { accepting = false })
  handshake_ok :
      {s : State} (before after : List Phase) (c : Accepted)
      → s.handlers ≡ before ++ handshaking ∷ after
      → (force_handshake c).1 ≡ ok tt
      → Step proxy_protocol s (moved s (before ++ dialing ∷ after))
  handshake_error :
      {s : State} (before after : List Phase) (c : Accepted) (e : HandshakeError)
      → s.handlers ≡ before ++ handshaking ∷ after
      → (force_handshake c).1 ≡ err e
      → Step proxy_protocol s (record (dropped s (before ++ failed ∷ after)) {
        error_counter = s.error_counter + 1;
        timeout_counter = s.timeout_counter + (force_handshake c).0;
      })
  dial_ok :
      {s : State} (before after : List Phase)
      → s.handlers ≡ before ++ dialing ∷ after
      → Step proxy_protocol s (moved s (before ++ after_dial proxy_protocol ∷ after))
  dial_error :
      {s : State} (before after : List Phase)
      → s.handlers ≡ before ++ dialing ∷ after
      → Step proxy_protocol s (dropped s (before ++ failed ∷ after))
  header_ok :
      {s : State} (before after : List Phase)
      → s.handlers ≡ before ++ writing_header ∷ after
      → Step proxy_protocol s (moved s (before ++ ready ∷ after))
  header_error :
      {s : State} (before after : List Phase)
      → s.handlers ≡ before ++ writing_header ∷ after
      → Step proxy_protocol s (dropped s (before ++ failed ∷ after))
  serve :
      {s : State} (before after : List Phase)
      → s.handlers ≡ before ++ ready ∷ after
      → Step proxy_protocol s (record (moved s (before ++ fusing ∷ after)) {
        success_counter = s.success_counter + 1;
        wait_group = s.wait_group + 1;
      })
  fused :
      {s : State} (before after : List Phase)
      → s.handlers ≡ before ++ fusing ∷ after
      → Step proxy_protocol s
          (record (dropped s (before ++ closed ∷ after)) { wait_group = s.wait_group - 1 })
  shutdown_load :
      {s : State}
      → s.shutdown ≡ not_called
      → s.quit ≡ false
      → Step proxy_protocol s (record s { shutdown = loaded })
  shutdown_store :
      {s : State}
      → s.shutdown ≡ loaded
      → Step proxy_protocol s (record s { shutdown = stored; quit = true })
  shutdown_close :
      {s : State}
      → s.shutdown ≡ stored
      → Step proxy_protocol s (record s { shutdown = listener_closed; listening = false })
  shutdown_done :
      {s : State}
      → s.shutdown ≡ listener_closed
      → Step proxy_protocol s (record s { shutdown = returned; wait_group = s.wait_group - 1 })

-- The states of a proxy.
pub data Reachable (proxy_protocol : Bool) : State → Type 0 where
  start : Reachable proxy_protocol new_proxy
  next :
      {s t : State}
      → Reachable proxy_protocol s
      → Step proxy_protocol s t
      → Reachable proxy_protocol t

-- `Wait` returns when the counter of the wait group is zero.
abbrev pub WaitReturns : State → Type 0
WaitReturns s = s.wait_group ≡ 0
