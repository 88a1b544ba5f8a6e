-- ===== src/Proxy/Callers.antt =====
-- proxy/proxy.go: two calls of `Shutdown` on a proxy without connections, in every order of their
-- steps.
use ghostunnel.Prelude.{
  ℕ, ◌-◌, ◌≡◌, refl, Bool, true, false, ◌&&◌, ◌||◌, if◌then◌else◌, List, [], ◌∷◌, ◌==◌,
}
use ghostunnel.Proxy.Steps.{Stage, not_called, loaded, stored, listener_closed, returned}

-- What the calls share; `panicked` says that the counter of the wait group was to fall below zero.
pub record Shared : Type 0 where
  pub quit : Bool
  pub listening : Bool
  pub wait_group : ℕ
  pub panicked : Bool

-- `p.handlers.Done()`
unfoldable pub done : Shared → Shared
done s =
    if s.wait_group == 0
    then record s { panicked = true }
    else record s { wait_group = s.wait_group - 1 }

-- The next step of a call.
unfoldable pub shutdown_step : Stage → Shared → Stage × Shared
shutdown_step not_called s = if s.quit then (returned, s) else (loaded, s)
shutdown_step loaded s = (stored, record s { quit = true })
shutdown_step stored s = (listener_closed, record s { listening = false })
shutdown_step listener_closed s = (returned, done s)
shutdown_step returned s = (returned, s)

pub data Caller : Type 0 where
  first second : Caller

pub record Pair : Type 0 where
  pub first_at : Stage
  pub second_at : Stage
  pub shared : Shared

abbrev pub turn : Caller → Pair → Pair
turn first p =
    let r = shutdown_step p.first_at p.shared in record p { first_at = r.0; shared = r.1 }
turn second p =
    let r = shutdown_step p.second_at p.shared in record p { second_at = r.0; shared = r.1 }

unfoldable pub turns : List Caller → Pair → Pair
turns [] p = p
turns (x ∷ xs) p = turns xs (turn x p)

-- Both calls on a new proxy.
abbrev pub both_called : Pair
both_called = record {
  first_at = not_called;
  second_at = not_called;
  shared = record { quit = false; listening = true; wait_group = 1; panicked = false };
}

-- At least so many turns are a caller's.
unfoldable pub takes : ℕ → Caller → List Caller → Bool
takes n who [] = n == 0
takes n first (first ∷ xs) = takes (n - 1) first xs
takes n first (second ∷ xs) = takes n first xs
takes n second (first ∷ xs) = takes n second xs
takes n second (second ∷ xs) = takes (n - 1) second xs

-- The first two turns are not one caller's.
unfoldable pub overlaps : List Caller → Bool
overlaps (first ∷ second ∷ xs) = true
overlaps (second ∷ first ∷ xs) = true
overlaps _ = false

abbrev is_returned : Stage → Bool
is_returned returned = true
is_returned _ = false

abbrev past : Stage → Bool
past not_called = false
past _ = true

-- The steps that are left to a call.
abbrev left : Stage → ℕ
left not_called = 4
left loaded = 3
left stored = 2
left listener_closed = 1
left returned = 0

-- Both calls are past their load of `quit`, which was not set.
abbrev racing : (quit listening : Bool) → Stage → Stage → Pair
racing quit listening i j = record {
  first_at = i;
  second_at = j;
  shared = record {
    quit = quit;
    listening = listening;
    wait_group = if is_returned i || is_returned j then 0 else 1;
    panicked = is_returned i && is_returned j;
  };
}

racing-panicked :
    (quit listening : Bool) (i j : Stage) (xs : List Caller)
    → past i ≡ true
    → past j ≡ true
    → (turns xs (racing quit listening i j)).shared.panicked
      ≡ (takes (left i) first xs && takes (left j) second xs)
unfolding turns takes shutdown_step done
racing-panicked q l not_called j xs p r = cc
racing-panicked q l i not_called xs p r = cc
racing-panicked q l loaded loaded [] p r = refl
racing-panicked q l loaded stored [] p r = refl
racing-panicked q l loaded listener_closed [] p r = refl
racing-panicked q l loaded returned [] p r = refl
racing-panicked q l stored j [] p r = refl
racing-panicked q l listener_closed j [] p r = refl
racing-panicked q l returned loaded [] p r = refl
racing-panicked q l returned stored [] p r = refl
racing-panicked q l returned listener_closed [] p r = refl
racing-panicked q l returned returned [] p r = refl
racing-panicked q l loaded j (first ∷ xs) p r = racing-panicked true l stored j xs refl r
racing-panicked q l stored j (first ∷ xs) p r = racing-panicked q false listener_closed j xs refl r
racing-panicked q l listener_closed loaded (first ∷ xs) p r =
    racing-panicked q l returned loaded xs refl r
racing-panicked q l listener_closed stored (first ∷ xs) p r =
    racing-panicked q l returned stored xs refl r
racing-panicked q l listener_closed listener_closed (first ∷ xs) p r =
    racing-panicked q l returned listener_closed xs refl r
racing-panicked q l listener_closed returned (first ∷ xs) p r =
    racing-panicked q l returned returned xs refl r
racing-panicked q l returned j (first ∷ xs) p r = racing-panicked q l returned j xs refl r
racing-panicked q l i loaded (second ∷ xs) p r = racing-panicked true l i stored xs p refl
racing-panicked q l i stored (second ∷ xs) p r = racing-panicked q false i listener_closed xs p refl
racing-panicked q l loaded listener_closed (second ∷ xs) p r =
    racing-panicked q l loaded returned xs p refl
racing-panicked q l stored listener_closed (second ∷ xs) p r =
    racing-panicked q l stored returned xs p refl
racing-panicked q l listener_closed listener_closed (second ∷ xs) p r =
    racing-panicked q l listener_closed returned xs p refl
racing-panicked q l returned listener_closed (second ∷ xs) p r =
    racing-panicked q l returned returned xs p refl
racing-panicked q l i returned (second ∷ xs) p r = racing-panicked q l i returned xs p refl

-- One call stored `quit` before the other loaded it, and the other stays out.
abbrev stopping : (listening : Bool) → Stage → Shared
stopping listening i = record {
  quit = true;
  listening = listening;
  wait_group = if is_returned i then 0 else 1;
  panicked = false;
}

abbrev stays_out : Stage → Bool
stays_out not_called = true
stays_out returned = true
stays_out _ = false

first_alone :
    (listening : Bool) (i j : Stage) (xs : List Caller)
    → past i ≡ true
    → stays_out j ≡ true
    → (turns xs
        (record { first_at = i; second_at = j; shared = stopping listening i })).shared.panicked
      ≡ false
unfolding turns shutdown_step done
first_alone l i j [] p r = refl
first_alone l not_called j (x ∷ xs) p r = cc
first_alone l loaded j (first ∷ xs) p r = first_alone l stored j xs refl r
first_alone l stored j (first ∷ xs) p r = first_alone false listener_closed j xs refl r
first_alone l listener_closed j (first ∷ xs) p r = first_alone l returned j xs refl r
first_alone l returned j (first ∷ xs) p r = first_alone l returned j xs refl r
first_alone l i not_called (second ∷ xs) p r = first_alone l i returned xs p refl
first_alone l i returned (second ∷ xs) p r = first_alone l i returned xs p refl
first_alone l i loaded (second ∷ xs) p r = cc
first_alone l i stored (second ∷ xs) p r = cc
first_alone l i listener_closed (second ∷ xs) p r = cc

second_alone :
    (listening : Bool) (i j : Stage) (xs : List Caller)
    → stays_out i ≡ true
    → past j ≡ true
    → (turns xs
        (record { first_at = i; second_at = j; shared = stopping listening j })).shared.panicked
      ≡ false
unfolding turns shutdown_step done
second_alone l i j [] p r = refl
second_alone l i not_called (x ∷ xs) p r = cc
second_alone l i loaded (second ∷ xs) p r = second_alone l i stored xs p refl
second_alone l i stored (second ∷ xs) p r = second_alone false i listener_closed xs p refl
second_alone l i listener_closed (second ∷ xs) p r = second_alone l i returned xs p refl
second_alone l i returned (second ∷ xs) p r = second_alone l i returned xs p refl
second_alone l not_called j (first ∷ xs) p r = second_alone l returned j xs refl r
second_alone l returned j (first ∷ xs) p r = second_alone l returned j xs refl r
second_alone l loaded j (first ∷ xs) p r = cc
second_alone l stored j (first ∷ xs) p r = cc
second_alone l listener_closed j (first ∷ xs) p r = cc

-- Two calls of `Shutdown` on a proxy without connections, in any order of their steps: the counter
-- of the wait group would fall below zero, a panic, exactly if the first two steps are not one
-- call's, so that both load `quit` before it is stored, and both calls make all their four steps.
pub turns-panicked :
    (xs : List Caller)
    → (turns xs both_called).shared.panicked
      ≡ (overlaps xs && takes 4 first xs && takes 4 second xs)
unfolding turns overlaps takes shutdown_step
turns-panicked [] = refl
turns-panicked (first ∷ []) = refl
turns-panicked (second ∷ []) = refl
turns-panicked (first ∷ first ∷ xs) = first_alone true stored not_called xs refl refl
turns-panicked (second ∷ second ∷ xs) = second_alone true not_called stored xs refl refl
turns-panicked (first ∷ second ∷ xs) = racing-panicked false true loaded loaded xs refl refl
turns-panicked (second ∷ first ∷ xs) = racing-panicked false true loaded loaded xs refl refl
