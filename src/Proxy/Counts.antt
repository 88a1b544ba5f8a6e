-- ===== src/Proxy/Counts.antt =====
-- Counting the handlers of each kind.
use ghostunnel.Prelude.{ℕ, ◌+◌, ◌≤◌, ◌≡◌, refl, ap, Bool, true, false, List, [], ◌∷◌, ◌++◌, arith}
use ghostunnel.Proxy.Steps.{
  Phase, handshaking, dialing, writing_header, ready, fusing, failed, closed, Stage, not_called,
  loaded, stored, listener_closed, returned,
}

-- The sum of the weights of a list.
unfoldable pub total : (Phase → ℕ) → List Phase → ℕ
total w [] = 0
total w (p ∷ ps) = w p + total w ps

pub total-append :
    (w : Phase → ℕ) (before : List Phase) (p : Phase) (after : List Phase)
    → total w (before ++ p ∷ after) ≡ w p + total w (before ++ after)
unfolding total
total-append w [] p after = refl
total-append w (q ∷ before) p after = let h = total-append w before p after in omega arith

-- Every handler; those in `fuse`; those that have been; those that have not returned.
abbrev pub is_any : Phase → ℕ
is_any _ = 1

abbrev pub is_fusing : Phase → ℕ
is_fusing fusing = 1
is_fusing _ = 0

abbrev pub is_served : Phase → ℕ
is_served fusing = 1
is_served closed = 1
is_served _ = 0

abbrev pub is_open : Phase → ℕ
is_open failed = 0
is_open closed = 0
is_open _ = 1

-- The steps that a handler can take at most.
abbrev pub steps_left : Phase → ℕ
steps_left handshaking = 5
steps_left dialing = 4
steps_left writing_header = 3
steps_left ready = 2
steps_left fusing = 1
steps_left failed = 0
steps_left closed = 0

-- The part of the wait group that `Shutdown` gives back.
abbrev pub held : Stage → ℕ
held returned = 0
held _ = 1

-- `quit` at a stage, and whether the listener is open.
abbrev pub quit_at : Stage → Bool
quit_at not_called = false
quit_at loaded = false
quit_at _ = true

abbrev pub listening_at : Stage → Bool
listening_at not_called = true
listening_at loaded = true
listening_at stored = true
listening_at _ = false

-- The steps that `Shutdown` has still to take.
abbrev pub stages_left : Stage → ℕ
stages_left not_called = 4
stages_left loaded = 3
stages_left stored = 2
stages_left listener_closed = 1
stages_left returned = 0

-- A handler that goes from one phase to another changes a sum by the difference of the two weights.
pub total-moved :
    (w : Phase → ℕ) (hs before : List Phase) (p q : Phase) (after : List Phase)
    → hs ≡ before ++ p ∷ after
    → total w (before ++ q ∷ after) + w p ≡ total w hs + w q
total-moved w hs before p q after e =
    let h = total-append w before p after in
    let k = total-append w before q after in let l = ap (total w) e in omega arith

pub total_mono :
    (w v : Phase → ℕ) → ((p : Phase) → w p ≤ v p) → (hs : List Phase) → total w hs ≤ total v hs
unfolding total
total_mono w v l [] = omega arith
total_mono w v l (p ∷ hs) = let h = total_mono w v l hs in let k = l p in omega arith
