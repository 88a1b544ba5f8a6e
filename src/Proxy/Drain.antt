-- ===== src/Proxy/Drain.antt =====
-- proxy/proxy.go: after its listener is closed, a proxy comes to an end.
use ghostunnel.Prelude.{
  ℕ, zero, suc, ◌+◌, ◌<◌, ◌≤◌, ◌≡◌, ◌≢◌, refl, sym, ap, ◌∙◌, ◌⊎◌, inl, inr, Bool-cases, Bool, true,
  false, List, [], ◌∷◌, ◌++◌, arith, ok,
}
use ghostunnel.Proxy.Steps.{
  Phase, handshaking, dialing, writing_header, ready, fusing, failed, closed, Stage, not_called,
  loaded, stored, listener_closed, returned, State, Step, accept, accept_error, accept_return,
  handshake_ok, handshake_error, dial_ok, dial_error, header_ok, header_error, serve, fused,
  shutdown_load, shutdown_store, shutdown_close, shutdown_done, Reachable, WaitReturns,
}
use ghostunnel.Proxy.Handshake.{raw_conn, force_handshake}
use ghostunnel.Proxy.Counts.{
  total, total-moved, total_mono, is_fusing, is_open, steps_left, stages_left, quit_at,
  listening_at,
}
use ghostunnel.Proxy.Wait.{WaitReturns-iff}
use ghostunnel.Proxy.Invariant.{Stages, Reachable-Stages, Reachable-Counted}

abbrev pub loop_left : Bool → ℕ
loop_left true = 1
loop_left false = 0

-- The steps that the goroutines can still take, once no connection is accepted.
unfoldable pub remaining : State → ℕ
remaining s = total steps_left s.handlers + stages_left s.shutdown + loop_left s.accepting

-- A step of a handler from `p` to `q` with less left.
handler-remaining :
    (s : State) (before : List Phase) (p q : Phase) (after : List Phase)
    → s.handlers ≡ before ++ p ∷ after
    → steps_left q < steps_left p
    → total steps_left (before ++ q ∷ after) + stages_left s.shutdown + loop_left s.accepting
      < total steps_left s.handlers + stages_left s.shutdown + loop_left s.accepting
handler-remaining s before p q after e l =
    let h = total-moved steps_left s.handlers before p q after e in omega arith

closed-quit : (x : Stage) → listening_at x ≡ false → quit_at x ≡ true
closed-quit not_called h = cc
closed-quit loaded h = cc
closed-quit stored h = cc
closed-quit listener_closed h = refl
closed-quit returned h = refl

Stages-remaining :
    {proxy_protocol : Bool} (s t : State)
    → Stages s
    → s.listening ≡ false
    → Step proxy_protocol s t
    → remaining t < remaining s
unfolding remaining
Stages-remaining s _ i c (accept a l) = cc
Stages-remaining s _ i c (accept_error a q) =
    let k = closed-quit s.shutdown (sym i.listening ∙ c) in cc (k, i.quit)
Stages-remaining s _ i c (accept_return a q) = rw a (omega arith)
Stages-remaining s _ i c (handshake_ok b a x e h) =
    handler-remaining s b handshaking dialing a e (omega arith)
Stages-remaining s _ i c (handshake_error b a x y e h) =
    handler-remaining s b handshaking failed a e (omega arith)
Stages-remaining {proxy_protocol = true} s _ i c (dial_ok b a e) =
    handler-remaining s b dialing writing_header a e (omega arith)
Stages-remaining {proxy_protocol = false} s _ i c (dial_ok b a e) =
    handler-remaining s b dialing ready a e (omega arith)
Stages-remaining s _ i c (dial_error b a e) = handler-remaining s b dialing failed a e (omega arith)
Stages-remaining s _ i c (header_ok b a e) =
    handler-remaining s b writing_header ready a e (omega arith)
Stages-remaining s _ i c (header_error b a e) =
    handler-remaining s b writing_header failed a e (omega arith)
Stages-remaining s _ i c (serve b a e) = handler-remaining s b ready fusing a e (omega arith)
Stages-remaining s _ i c (fused b a e) = handler-remaining s b fusing closed a e (omega arith)
Stages-remaining s _ i c (shutdown_load e q) = rw e (omega arith)
Stages-remaining s _ i c (shutdown_store e) = rw e (omega arith)
Stages-remaining s _ i c (shutdown_close e) = rw e (omega arith)
Stages-remaining s _ i c (shutdown_done e) = rw e (omega arith)

-- Once the listener of a proxy is closed, every step of any goroutine takes at least one of the
-- remaining steps: no run goes on for ever, whatever the order of the steps.
pub remaining-Step :
    {proxy_protocol : Bool} (s t : State)
    → Reachable proxy_protocol s
    → s.listening ≡ false
    → Step proxy_protocol s t
    → remaining t < remaining s
remaining-Step s t r c step = Stages-remaining s t (Reachable-Stages s r) c step

passes : (force_handshake raw_conn).1 ≡ ok tt
unfolding force_handshake
passes = refl

-- A handler that has not returned can take a step.
handler-steps :
    {proxy_protocol : Bool} (s : State) (before : List Phase) (p : Phase) (after : List Phase)
    → s.handlers ≡ before ++ p ∷ after
    → steps_left p ≢ 0
    → (t : State) × Step proxy_protocol s t
handler-steps s b handshaking a e n = (_, handshake_ok b a raw_conn e passes)
handler-steps s b dialing a e n = (_, dial_ok b a e)
handler-steps s b writing_header a e n = (_, header_ok b a e)
handler-steps s b ready a e n = (_, serve b a e)
handler-steps s b fusing a e n = (_, fused b a e)
handler-steps s b failed a e n = absurd (n refl)
handler-steps s b closed a e n = absurd (n refl)

-- The first handler that has not returned, if there is one.
find_open :
    (hs : List Phase)
    → (total steps_left hs ≡ 0)
      ⊎ ((before : List Phase) × (p : Phase) × (after : List Phase) × (hs ≡ before ++ p ∷ after)
          × (steps_left p ≢ 0))
unfolding total
find_open [] = inl refl
find_open (p ∷ hs) = elim (phase_done p) [
  | inr n ↦ inr ([], p, hs, refl, n)
  | inl z ↦ elim (find_open hs) [
    | inl k ↦ inl (omega arith)
    | inr (b, q, a, e, n) ↦ inr (p ∷ b, q, a, ap (λ (x : List Phase). p ∷ x) e, n)
  ]
]
  where
    phase_done : (p : Phase) → (steps_left p ≡ 0) ⊎ (steps_left p ≢ 0)
    phase_done p = elim (steps_left p) as (λ n. (n ≡ 0) ⊎ (n ≢ 0)) [
      | zero ↦ inl refl
      | suc n ↦ inr (λ h. omega arith)
    ]

-- A proxy whose listener is closed and that has steps remaining can take one.
pub remaining-progress :
    {proxy_protocol : Bool} (s : State)
    → Reachable proxy_protocol s
    → s.listening ≡ false
    → remaining s ≢ 0
    → (t : State) × Step proxy_protocol s t
unfolding remaining
remaining-progress {proxy_protocol = proxy_protocol} s r c n =
    let i = Reachable-Stages s r in
    let q : s.quit ≡ true = i.quit ∙ closed-quit s.shutdown (sym i.listening ∙ c) in
    elim (find_open s.handlers) [
      | inr (b, p, a, e, k) ↦ handler-steps s b p a e k
      | inl z ↦ elim (Bool-cases s.accepting) [
        | inl a ↦ (_, accept_return a q)
        | inr a ↦ (_, shutdown_done (last s.shutdown (sym i.listening ∙ c) (left z a n)))
      ]
    ]
  where
    left :
        total steps_left s.handlers ≡ 0
        → s.accepting ≡ false
        → (total steps_left s.handlers + stages_left s.shutdown + loop_left s.accepting) ≢ 0
        → stages_left s.shutdown ≢ 0
    left z a n h = n (let k = ap loop_left a in omega arith)

    last : (x : Stage) → listening_at x ≡ false → stages_left x ≢ 0 → x ≡ listener_closed
    last not_called h k = cc
    last loaded h k = cc
    last stored h k = cc
    last listener_closed h k = refl
    last returned h k = absurd (k refl)

open-left : (p : Phase) → is_open p ≤ steps_left p
open-left handshaking = omega arith
open-left dialing = omega arith
open-left writing_header = omega arith
open-left ready = omega arith
open-left fusing = omega arith
open-left failed = omega arith
open-left closed = omega arith

fusing-left : (p : Phase) → is_fusing p ≤ steps_left p
fusing-left handshaking = omega arith
fusing-left dialing = omega arith
fusing-left writing_header = omega arith
fusing-left ready = omega arith
fusing-left fusing = omega arith
fusing-left failed = omega arith
fusing-left closed = omega arith

stage_end : (x : Stage) → stages_left x ≡ 0 → x ≡ returned
stage_end not_called h = absurd (omega arith)
stage_end loaded h = absurd (omega arith)
stage_end stored h = absurd (omega arith)
stage_end listener_closed h = absurd (omega arith)
stage_end returned h = refl

loop_end : (b : Bool) → loop_left b ≡ 0 → b ≡ false
loop_end true h = absurd (omega arith)
loop_end false h = refl

-- At the end of a run every handler and the accept loop have returned, no connection counts as open,
-- and `Wait` returns.
pub remaining-WaitReturns :
    {proxy_protocol : Bool} (s : State)
    → Reachable proxy_protocol s
    → remaining s ≡ 0
    → WaitReturns s × (s.open_counter ≡ 0) × (s.accepting ≡ false)
unfolding remaining
remaining-WaitReturns s r z =
    let f = total_mono is_fusing steps_left fusing-left s.handlers in
    let o = total_mono is_open steps_left open-left s.handlers in
    let k = (Reachable-Counted s r).opened in
    (
      (WaitReturns-iff s r).1 (stage_end s.shutdown (omega arith), omega arith),
      omega arith,
      loop_end s.accepting (omega arith),
    )
