-- ===== src/Proxy/Tests.antt =====
-- proxy/proxy.go: a run of the proxy in which one client is served and one still shakes hands.
use ghostunnel.Prelude.{◌≡◌, ◌≢◌, ◌<◌, ◌↔◌, List, ◌&&◌, refl, true, false, [], ◌∷◌, ok, err, some}
use ghostunnel.Proxy.Handshake.{raw_conn, force_handshake}
use ghostunnel.Proxy.Copy.{from_client, reverse_of, tls, tcp, other, copy_data, call, Conn, IsShut}
use ghostunnel.Proxy.Callers.{
  Caller, first, second, done, shutdown_step, turns, both_called, takes, overlaps, turns-panicked,
}
use ghostunnel.Proxy.Handler.{Calls, Left, send_header, handle_conn, Backend, handle_conn-Backend}
use ghostunnel.Proxy.HalfClose.{opened, Flows, HalfReads, source_of, target_of, copy_data-Flows_iff}
use ghostunnel.Proxy.Header.{tcp_addr, tcp_v4, get_proxy_proto_header_for}
use ghostunnel.Proxy.Steps.{
  handshaking, fusing, closed, listener_closed, returned, State, new_proxy, accept, accept_return,
  handshake_ok, dial_ok, serve, fused, shutdown_load, shutdown_store, shutdown_close, shutdown_done,
  Reachable, start, next, WaitReturns,
}
use ghostunnel.Proxy.Counts.{total, is_fusing}
use ghostunnel.Proxy.Invariant.{Counted, Reachable-Counted}
use ghostunnel.Proxy.Wait.{WaitReturns-iff}
use ghostunnel.Proxy.Drain.{remaining, remaining-Step, remaining-WaitReturns}

copy_data-Flows_iff_example :
    Flows (reverse_of from_client) (copy_data from_client (opened tls tcp)) ↔ (
      HalfReads (source_of from_client (opened tls tcp))
      × (target_of from_client (opened tls tcp) ≢ other))
copy_data-Flows_iff_example = copy_data-Flows_iff from_client tls tcp

passes : (force_handshake raw_conn).1 ≡ ok tt
unfolding force_handshake
passes = refl

-- Two connections, the first in `fuse`, and the listener closed.
abbrev draining : State
draining = record {
  quit = true;
  listening = false;
  accepting = true;
  wait_group = 2;
  shutdown = listener_closed;
  handlers = handshaking ∷ fusing ∷ [];
  open_counter = 2;
  total_counter = 2;
  success_counter = 1;
  error_counter = 0;
  timeout_counter = 0;
}

reaches : Reachable false draining
unfolding new_proxy
reaches =
    next
      (next
        (next
          (next
            (next
              (next (next (next start (accept refl refl)) (handshake_ok [] [] raw_conn refl passes))
                (dial_ok [] [] refl))
              (serve [] [] refl))
            (accept refl refl))
          (shutdown_load refl refl))
        (shutdown_store refl))
      (shutdown_close refl)

-- The same at its end.
abbrev drained : State
drained = record draining {
  accepting = false;
  wait_group = 0;
  shutdown = returned;
  handlers = closed ∷ closed ∷ [];
  open_counter = 0;
  success_counter = 2;
}

ends : Reachable false drained
ends =
    next
      (next
        (next
          (next
            (next
              (next (next reaches (handshake_ok [] (fusing ∷ []) raw_conn refl passes))
                (dial_ok [] (fusing ∷ []) refl))
              (serve [] (fusing ∷ []) refl))
            (fused (fusing ∷ []) [] refl))
          (shutdown_done refl))
        (fused [] (closed ∷ []) refl))
      (accept_return refl refl)

Reachable-Counted_example : Counted draining
Reachable-Counted_example = Reachable-Counted draining reaches

WaitReturns-iff_example :
    WaitReturns draining
    ↔ ((draining.shutdown ≡ returned) × (total is_fusing draining.handlers ≡ 0))
WaitReturns-iff_example = WaitReturns-iff draining reaches

remaining-Step_example : remaining (record draining { accepting = false }) < remaining draining
remaining-Step_example =
    remaining-Step {proxy_protocol = false} draining (record draining { accepting = false }) reaches
      refl (accept_return refl refl)

some_left : remaining draining ≢ 0
unfolding remaining total
some_left = λ h. cc

none_left : remaining drained ≡ 0
unfolding remaining total
none_left = refl

remaining-WaitReturns_example :
    WaitReturns drained × (drained.open_counter ≡ 0) × (drained.accepting ≡ false)
remaining-WaitReturns_example = remaining-WaitReturns drained ends none_left

-- The header of a connection over IPv6 announces IPv4.
over_v6 :
    get_proxy_proto_header_for
      (tcp_addr (0x20 ∷ 1 ∷ 0 ∷ 0 ∷ 0 ∷ 0 ∷ 0 ∷ 0 ∷ 0 ∷ 0 ∷ 0 ∷ 0 ∷ 0 ∷ 0 ∷ 0 ∷ 1 ∷ []) 51234)
      (tcp_addr (0x20 ∷ 1 ∷ 0 ∷ 0 ∷ 0 ∷ 0 ∷ 0 ∷ 0 ∷ 0 ∷ 0 ∷ 0 ∷ 0 ∷ 0 ∷ 0 ∷ 0 ∷ 2 ∷ []) 443)
    ≡ ok (record {
      version = 2;
      transport_protocol = tcp_v4;
      source_address = 0x20 ∷ 1 ∷ 0 ∷ 0 ∷ 0 ∷ 0 ∷ 0 ∷ 0 ∷ 0 ∷ 0 ∷ 0 ∷ 0 ∷ 0 ∷ 0 ∷ 0 ∷ 1 ∷ [];
      destination_address = 0x20 ∷ 1 ∷ 0 ∷ 0 ∷ 0 ∷ 0 ∷ 0 ∷ 0 ∷ 0 ∷ 0 ∷ 0 ∷ 0 ∷ 0 ∷ 0 ∷ 0 ∷ 2 ∷ [];
      source_port = 51234;
      destination_port = 443;
    })
unfolding get_proxy_proto_header_for
over_v6 = refl

-- A client with a TLS connection, and a backend that does not take the header.
abbrev client : Conn
client = record { kind = tls; read_open = true; write_open = true }

abbrev refusing_header : Calls
refusing_header = record {
  incoming = raw_conn;
  dial = ok (record { kind = tcp; read_open = true; write_open = true });
  remote = tcp_addr (10 ∷ 0 ∷ 0 ∷ 1 ∷ []) 51234;
  local = tcp_addr (10 ∷ 0 ∷ 0 ∷ 2 ∷ []) 443;
  write_to = λ h. err [];
  first = from_client;
}

abbrev left_open : Left
left_open = record {
  client = record { kind = tls; read_open = false; write_open = false };
  backend = some (record { kind = tcp; read_open = true; write_open = true });
}

refusing_header-left : handle_conn true refusing_header client ≡ ok left_open
unfolding handle_conn force_handshake send_header get_proxy_proto_header_for call
refusing_header-left = refl

handle_conn-Backend_example :
    IsShut left_open.client × Backend true refusing_header left_open.backend
handle_conn-Backend_example =
    handle_conn-Backend true refusing_header client left_open refusing_header-left

-- Both calls load `quit`, then one and then the other goes on to its end.
abbrev racing_turns : List Caller
racing_turns = first ∷ second ∷ first ∷ first ∷ first ∷ second ∷ second ∷ second ∷ []

turns-panicked_example :
    (turns racing_turns both_called).shared.panicked
    ≡ (overlaps racing_turns && takes 4 first racing_turns && takes 4 second racing_turns)
turns-panicked_example = turns-panicked racing_turns

races : (turns racing_turns both_called).shared.panicked ≡ true
unfolding turns shutdown_step done
races = refl
