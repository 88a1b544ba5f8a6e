-- ===== src/Certloader/Dialer.antt =====
-- certloader/dialer.go: `dialWithDialer`, the race of a dial and its handshake with a timer.
use ghostunnel.Prelude.{
  ℕ, ◌+◌, ◌≤◌, ◌<◌, ◌≡◌, ◌≢◌, refl, sym, subst, ◌↔◌, ◌⊎◌, inl, inr, Bool, true, false, Bool-cases,
  not, ltb, ◌==◌, ◌||◌, ◌&&◌, Option, none, some, if◌then◌else◌, arith, Text,
}

-- An error that may be nil is an `Option`. What happens during one call, in a unit of time of the reader's choice: when the dial below
-- returns and with what; how long the handshake takes and with what, unless it never ends; and which
-- message is first where both come at one time. The timer starts with the call.
pub record Race : Type 0 where
  pub dial_at : ℕ
  pub dialed : Option Text
  pub handshake : Option (ℕ × Option Text)
  pub timer_wins : Bool

pub data DialError : Type 0 where
  timeout_error : DialError
  dial_failed : Text → DialError
  handshake_failed : Text → DialError

-- What the call returns, when, and whether it has closed the raw connection.
pub record Dialed : Type 0 where
  pub result : Option DialError
  pub returned_at : ℕ
  pub raw_closed : Bool

abbrev later : ℕ → ℕ → ℕ
later a b = if ltb a b then b else a

-- The handshake's message is received before the timer's.
unfoldable pub handshake_first : ℕ → ℕ → Bool → Bool
handshake_first timeout at timer_wins = ltb at timeout || ((at == timeout) && not timer_wins)

abbrev timed_out : ℕ → ℕ → Dialed
timed_out timeout dial_at = record {
  result = some timeout_error;
  returned_at = later dial_at timeout;
  raw_closed = true;
}

-- What the handshake sent, as the call returns it.
abbrev shaken : ℕ → Option Text → Dialed
shaken at none = record { result = none; returned_at = at; raw_closed = false }
shaken at (some e) = record {
  result = some (handshake_failed e);
  returned_at = at;
  raw_closed = true;
}

-- The receive from the channel, after a dial that returned a connection.
abbrev received : ℕ → ℕ → Bool → Option (ℕ × Option Text) → Dialed
received timeout dial_at timer_wins none = timed_out timeout dial_at
received timeout dial_at timer_wins (some (duration, r)) =
    if handshake_first timeout (dial_at + duration) timer_wins
    then shaken (dial_at + duration) r
    else timed_out timeout dial_at

abbrev on_dial : ℕ → Race → Option Text → Dialed
on_dial timeout race none = received timeout race.dial_at race.timer_wins race.handshake
on_dial timeout race (some e) = record {
  result = some (dial_failed e);
  returned_at = race.dial_at;
  raw_closed = false;
}

-- The error of the dial is returned without a look at the channel.
unfoldable pub dial_with_dialer : ℕ → Race → Dialed
dial_with_dialer timeout race = on_dial timeout race race.dialed

-- The handshake ended without an error before the timer, which started with the call; or at its time,
-- with the message of the handshake first.
abbrev pub InTime : ℕ → Race → Type 0
InTime timeout race =
    (duration : ℕ) × (race.handshake ≡ some (duration, none))
    × ((race.dial_at + duration < timeout)
        ⊎ ((race.dial_at + duration ≡ timeout) × (race.timer_wins ≡ false)))

first-Before :
    (timeout at : ℕ) (w : Bool)
    → (handshake_first timeout at w ≡ true) ↔ ((at < timeout) ⊎ ((at ≡ timeout) × (w ≡ false)))
unfolding handshake_first
first-Before timeout at true =
    (λ h. ground arith, λ h. elim h [ inl l ↦ ground arith | inr (e, f) ↦ cc ])
first-Before timeout at false =
    (λ h. ground arith, λ h. elim h [ inl l ↦ ground arith | inr (e, f) ↦ ground arith ])

received-none :
    (timeout : ℕ) (race : Race) (h : Option (ℕ × Option Text))
    → race.handshake ≡ h
    → ((received timeout race.dial_at race.timer_wins h).result ≡ none) ↔ InTime timeout race
received-none timeout race none e = (λ h. cc, λ (d, k, _). cc)
received-none timeout race (some (duration, r)) e =
    elim (Bool-cases (handshake_first timeout (race.dial_at + duration) race.timer_wins)) [
      | inl f ↦ rw f (ended r e f)
      | inr f ↦ rw f (
        λ h. cc,
        λ (d, k, g).
            late d (same d k) ((first-Before timeout (race.dial_at + d) race.timer_wins).1 g) f,
      )
    ]
  where
    ended :
        (r : Option Text)
        → race.handshake ≡ some (duration, r)
        → handshake_first timeout (race.dial_at + duration) race.timer_wins ≡ true
        → ((shaken (race.dial_at + duration) r).result ≡ none) ↔ InTime timeout race
    ended none e f = (
      λ _. (duration, e, (first-Before timeout (race.dial_at + duration) race.timer_wins).0 f),
      λ _. refl,
    )
    ended (some x) e f = (λ h. cc, λ (d, k, _). cc)

    same : (d : ℕ) → race.handshake ≡ some (d, none) → d ≡ duration
    same d k = cc

    late :
        {A : Type 0} (d : ℕ)
        → d ≡ duration
        → handshake_first timeout (race.dial_at + d) race.timer_wins ≡ true
        → handshake_first timeout (race.dial_at + duration) race.timer_wins ≡ false
        → A
    late d q g f = cc (q, g, f)

-- A call returns a connection exactly if the dial returned one and the handshake, which begins when
-- the dial returns, ended without an error less than the timeout after the call began, or just the
-- timeout after it with its message first in the channel.
pub dial_with_dialer_iff :
    (timeout : ℕ) (race : Race)
    → ((dial_with_dialer timeout race).result ≡ none) ↔ ((race.dialed ≡ none) × InTime timeout race)
unfolding dial_with_dialer
dial_with_dialer_iff timeout race = of_dial race.dialed
  where
    of_dial :
        (o : Option Text)
        → ((on_dial timeout race o).result ≡ none) ↔ ((o ≡ none) × InTime timeout race)
    of_dial none =
        let (to, from) = received-none timeout race race.handshake refl in
        (λ h. (refl, to h), λ (_, h). from h)
    of_dial (some e) = (λ h. cc, λ (h, _). cc)

-- The call is over by the time of the timer, or of the dial if that was later; and either it returns
-- the connection open, or it returns an error and has closed it.
pub record Bounded (timeout : ℕ) (race : Race) (d : Dialed) : Type 0 where
  pub in_time : (d.returned_at ≤ timeout) ⊎ (d.returned_at ≡ race.dial_at)
  pub closes :
      ((d.result ≡ none) × (d.raw_closed ≡ false)) ⊎ ((d.result ≢ none) × (d.raw_closed ≡ true))

later-cases : (a b : ℕ) → (later a b ≤ b) ⊎ (later a b ≡ a)
later-cases a b = ground arith

timed_out-Bounded :
    (timeout : ℕ) (race : Race) → Bounded timeout race (timed_out timeout race.dial_at)
timed_out-Bounded timeout race = record {
  in_time = later-cases race.dial_at timeout;
  closes = inr (λ h. cc, refl);
}

first-in_time : (timeout at : ℕ) (w : Bool) → handshake_first timeout at w ≡ true → at ≤ timeout
unfolding handshake_first
first-in_time timeout at w h = ground arith

shaken-Bounded :
    (timeout : ℕ) (race : Race) (at : ℕ) (r : Option Text)
    → at ≤ timeout
    → Bounded timeout race (shaken at r)
shaken-Bounded timeout race at none l = record { in_time = inl l; closes = inl (refl, refl) }
shaken-Bounded timeout race at (some e) l = record { in_time = inl l; closes = inr (λ h. cc, refl) }

received-Bounded :
    (timeout : ℕ) (race : Race) (h : Option (ℕ × Option Text))
    → Bounded timeout race (received timeout race.dial_at race.timer_wins h)
received-Bounded timeout race none = timed_out-Bounded timeout race
received-Bounded timeout race (some (duration, r)) =
    elim (Bool-cases (handshake_first timeout (race.dial_at + duration) race.timer_wins)) [
      | inl f ↦ rw f (
          shaken-Bounded timeout race (race.dial_at + duration) r
            (first-in_time timeout (race.dial_at + duration) race.timer_wins f))
      | inr f ↦ rw f (timed_out-Bounded timeout race)
    ]

-- After a dial that returned a connection the call ends no later than the timer, or than the dial if
-- that was later, also where the handshake never ends; it returns the connection, or it returns an
-- error and has closed it.
pub dial_with_dialer-Bounded :
    (timeout : ℕ) (race : Race)
    → race.dialed ≡ none
    → Bounded timeout race (dial_with_dialer timeout race)
unfolding dial_with_dialer
dial_with_dialer-Bounded timeout race e =
    subst (λ (o : Option Text). Bounded timeout race (on_dial timeout race o)) (sym e)
      (received-Bounded timeout race race.handshake)
