-- ===== src/Proxy/Wait.antt =====
-- proxy/proxy.go: `Wait` and the calls of `Done`.
use ghostunnel.Prelude.{
  ℕ, ◌+◌, ◌≡◌, ◌≢◌, refl, sym, ap, ◌∙◌, ◌↔◌, ◌⊎◌, inl, inr, Bool, List, ◌∷◌, ◌++◌, arith,
}
use ghostunnel.Proxy.Steps.{
  Phase, fusing, Stage, not_called, loaded, stored, listener_closed, returned, State, Reachable,
  WaitReturns,
}
use ghostunnel.Proxy.Counts.{total, is_fusing, held}
use ghostunnel.Proxy.Invariant.{total-split, Reachable-Counted}

held_zero : (x : Stage) (n : ℕ) → (held x + n ≡ 0) ↔ ((x ≡ returned) × (n ≡ 0))
held_zero not_called n = (λ h. absurd (omega arith), λ (h, _). cc)
held_zero loaded n = (λ h. absurd (omega arith), λ (h, _). cc)
held_zero stored n = (λ h. absurd (omega arith), λ (h, _). cc)
held_zero listener_closed n = (λ h. absurd (omega arith), λ (h, _). cc)
held_zero returned n = (λ h. (refl, omega arith), λ (_, h). omega arith)

-- `Wait` returns exactly when `Shutdown` has returned and no handler is in `fuse`; handlers that
-- have not reached `fuse` do not keep it from returning.
pub WaitReturns-iff :
    {proxy_protocol : Bool} (s : State)
    → Reachable proxy_protocol s
    → WaitReturns s ↔ ((s.shutdown ≡ returned) × (total is_fusing s.handlers ≡ 0))
WaitReturns-iff s r =
    let w = (Reachable-Counted s r).wait_group in
    let (to, from) = held_zero s.shutdown (total is_fusing s.handlers) in
    (λ h. to (sym w ∙ h), λ h. w ∙ from h)

-- A goroutine is about to call `Done`: a handler that is in `fuse`, or `Shutdown`.
abbrev pub CallsDone : State → Type 0
CallsDone s =
    ((before : List Phase) × (after : List Phase) × (s.handlers ≡ before ++ fusing ∷ after))
    ⊎ (s.shutdown ≡ listener_closed)

-- Each call of `Done` finds the wait group above zero: that of a handler that leaves `fuse`, and that
-- of the one call of `Shutdown`.
pub done-positive :
    {proxy_protocol : Bool} (s : State)
    → Reachable proxy_protocol s
    → CallsDone s
    → s.wait_group ≢ 0
done-positive s r (inl (before, after, e)) = λ h.
    let w = (Reachable-Counted s r).wait_group in
    let n = total-split is_fusing s before fusing after e in omega arith
done-positive s r (inr e) = λ h.
    let k : s.wait_group ≡ 1 + total is_fusing s.handlers =
      (Reachable-Counted s r).wait_group
      ∙ ap (λ (x : Stage). held x + total is_fusing s.handlers) e in
    omega arith
