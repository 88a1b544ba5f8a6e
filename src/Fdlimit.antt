-- ===== src/Fdlimit.antt =====
-- fdlimit/fdlimit_unix.go and fdlimit/fdlimit_windows.go: the limit of open file descriptors.
mod Tests
use ghostunnel.Flags.Validate.{ℤ, pos, negsuc}
use ghostunnel.Prelude.{
  ℕ, ◌≡◌, ◌↔◌, ◌≤◌, ◌<◌, refl, Bool, true, false, if◌then◌else◌, ltb, Text, codes, Result, ok, err,
  panic, ◌>>=◌, arith, Bool-cases, inl, inr, ok-injective, ap, ◌-◌,
}

-- `syscall.Rlimit`, two numbers of 64 bits.
pub record Rlimit : Type 0 where
  pub cur : ℕ
  pub max : ℕ

-- `int(n)` of a number of 64 bits, where an `int` has as many: two's complement.
unfoldable pub to_int : ℕ → ℤ
to_int n = if ltb n 0x8000000000000000 then pos n else negsuc (0xffffffffffffffff - n)

-- `Raise`, over `syscall.Setrlimit`.
unfoldable pub raise_unix {ℓ} : {A : Type ℓ} → (Rlimit → Result Text A) → ℕ → Result Text A
raise_unix setrlimit max = setrlimit (record { cur = max; max = max })

-- `Current` and `Maximum`, over what `syscall.Getrlimit` returned.
unfoldable pub current_unix : Result Text Rlimit → Result Text ℤ
current_unix limit = limit >>= λ l. ok (to_int l.cur)

unfoldable pub maximum_unix : Result Text Rlimit → Result Text ℤ
maximum_unix limit = limit >>= λ l. ok (to_int l.max)

-- The same on Windows, where nothing is set.
unfoldable pub raise_windows : (Rlimit → Result Text (Unit {0})) → ℕ → Result Text (Unit {0})
raise_windows setrlimit max =
    if ltb 16384 max then err (codes "file descriptor limit (16384) reached") else ok tt

unfoldable pub current_windows : Result Text ℤ
current_windows = ok (pos 16384)

unfoldable pub maximum_windows : Result Text ℤ
maximum_windows = current_windows

to_int_iff : (n : ℕ) → (to_int n ≡ pos n) ↔ (n < 0x8000000000000000)
unfolding to_int
to_int_iff n = elim (Bool-cases (ltb n 0x8000000000000000)) [
  | inl h ↦ (λ _. ground arith, λ _. rw h refl)
  | inr h ↦ (λ e. cc (h, e), λ l. absurd (ground arith))
]

-- On a kernel where the limit that was set last is the one that is read: after a `Raise` without an
-- error, `Current` and `Maximum` agree, and they give back the number that was asked for exactly if
-- it fits an `int`.
pub raise_unix-current_iff :
    {Kernel : Type 0} (setrlimit : Rlimit → Kernel → Result Text Kernel)
    (getrlimit : Kernel → Result Text Rlimit) (k k' : Kernel) (max : ℕ)
    → ((l : Rlimit) (j j' : Kernel) → setrlimit l j ≡ ok j' → getrlimit j' ≡ ok l)
    → raise_unix (λ l. setrlimit l k) max ≡ ok k'
    → (maximum_unix (getrlimit k') ≡ current_unix (getrlimit k'))
      × ((current_unix (getrlimit k') ≡ ok (pos max)) ↔ (max < 0x8000000000000000))
unfolding raise_unix current_unix maximum_unix
raise_unix-current_iff setrlimit getrlimit k k' max kept e =
    let g = kept (record { cur = max; max = max }) k k' e in
    let (to, from) = to_int_iff max in rw g (refl, (λ h. to (ok-injective h), λ l. ap ok (from l)))

-- `Raise` on Windows succeeds exactly for what `Current` says there is.
pub raise_windows_iff :
    (setrlimit : Rlimit → Result Text (Unit {0})) (max : ℕ)
    → (raise_windows setrlimit max ≡ ok tt) ↔ ((n : ℕ) × (current_windows ≡ ok (pos n)) × (max ≤ n))
unfolding raise_windows current_windows
raise_windows_iff setrlimit max = elim (Bool-cases (ltb 16384 max)) [
  | inl h ↦ (λ e. cc (h, e), λ (n, e, l). absurd (let k : 16384 ≡ n = cc e in ground arith))
  | inr h ↦ (λ _. (16384, refl, ground arith), λ _. rw h refl)
]
