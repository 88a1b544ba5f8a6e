-- ===== src/Regexp/Parse.antt =====
-- `regexp.Compile` on the part of the syntax that the wildcard compiler writes, a character at a
-- time, and `regexp.QuoteMeta`. `none` is a syntax error. Two constructs of the package are left
-- out, and read as errors: a class other than `[^c]`, and a backslash before a letter or a digit.
-- The wildcard compiler writes them only where its separator is itself a bracket or a backslash.
use ghostunnel.Prelude.{
  ℕ, Bool, true, false, ◌&&◌, ◌||◌, Option, none, some, List, [], ◌∷◌, leb, ◌==◌, if◌then◌else◌,
  Text, codes, any,
}
use ghostunnel.Regexp.Syntax.{
  Regex, eps, begin_text, end_text, any_not_nl, lit, not_char, seq, alt, star, plus, opt,
}

abbrev pub backslash : ℕ
backslash = 92

abbrev special_chars : Text
special_chars = codes "\\.+*?()|[]{}^$"

-- The characters that `QuoteMeta` escapes.
unfoldable pub is_meta : ℕ → Bool
is_meta c = any (λ d. c == d) special_chars

-- `regexp.QuoteMeta`
unfoldable pub quote_meta : Text → Text
unfolding is_meta
quote_meta [] = []
quote_meta (c ∷ s) = if is_meta c then backslash ∷ c ∷ quote_meta s else c ∷ quote_meta s

-- One open group: the alternatives that a `|` has closed, what stands before the last item of
-- the current one, and that item, to which a repetition applies.
pub record Frame : Type 0 where
  pub branches : Option Regex
  pub before : Regex
  pub top : Option Regex

-- The last thing read: an item, an item with a repetition, or one with a lazy repetition.
pub data Last : Type 0 where
  item repeated lazy : Last

pub data Mode : Type 0 where
  normal : Last → Mode
  escaped class_open class_char : Mode
  class_close : ℕ → Mode

pub record State : Type 0 where
  pub mode : Mode
  pub frame : Frame
  pub outer : List Frame

abbrev pub new_frame : Frame
new_frame = record { branches = none; before = eps; top = none }

abbrev pub concat : Regex → Option Regex → Regex
concat r none = r
concat r (some x) = seq r x

abbrev pub join_branches : Option Regex → Regex → Regex
join_branches none r = r
join_branches (some q) r = alt q r

-- The expression that a frame stands for.
abbrev pub frame_regex : Frame → Regex
frame_regex f = join_branches f.branches (concat f.before f.top)

abbrev pub push : Regex → Frame → Frame
push x f = record f { before = concat f.before f.top; top = some x }

abbrev pub push_item : Regex → State → Option State
push_item x s = some (record s { mode = normal item; frame = push x s.frame })

with_top : (Regex → Regex) → Last → State → Option Regex → Option State
with_top op last s none = none
with_top op last s (some x) =
    some (record s { mode = normal last; frame = record s.frame { top = some (op x) } })

-- `*`, `+` and `?`; only `?` may follow another repetition, which it makes lazy.
repetition : (Regex → Regex) → Bool → Last → State → Option State
repetition op is_question item s = with_top op repeated s s.frame.top
repetition op true repeated s = some (record s { mode = normal lazy })
repetition op false repeated s = none
repetition op is_question lazy s = none

close_group : State → List Frame → Option State
close_group s [] = none
close_group s (f ∷ fs) =
    some (record { mode = normal item; frame = push (frame_regex s.frame) f; outer = fs })

normal_step : Last → State → ℕ → Option State
normal_step last s c =
    if c == backslash
    then some (record s { mode = escaped })
    else if c == b'['
    then some (record s { mode = class_open })
    else if c == b'('
    then some (record { mode = normal item; frame = new_frame; outer = s.frame ∷ s.outer })
    else if c == b'|'
    then some (record s {
      mode = normal item;
      frame = record new_frame { branches = some (frame_regex s.frame) };
    })
    else if c == b')'
    then close_group s s.outer
    else if c == b'*'
    then repetition star false last s
    else if c == b'+'
    then repetition plus false last s
    else if c == b'?'
    then repetition opt true last s
    else if c == b'^'
    then push_item begin_text s
    else if c == b'$'
    then push_item end_text s
    else if c == b'.'
    then push_item any_not_nl s
    else push_item (lit c) s

is_alnum : ℕ → Bool
is_alnum c = (leb b'0' c && leb c b'9') || (leb b'a' c && leb c b'z') || (leb b'A' c && leb c b'Z')

unfoldable pub step : State → Mode → ℕ → Option State
unfolding normal_step repetition with_top close_group is_alnum
step s (normal last) c = normal_step last s c
step s escaped c = if is_alnum c || leb 128 c then none else push_item (lit c) s
step s class_open c = if c == b'^' then some (record s { mode = class_char }) else none
step s class_char c = if c == backslash then none else some (record s { mode = class_close c })
step s (class_close d) c = if c == b']' then push_item (not_char d) s else none

unfoldable pub parse : Option State → Text → Option State
unfolding step
parse none text = none
parse (some s) [] = some s
parse (some s) (c ∷ text) = parse (step s s.mode c) text

abbrev finish : Mode → Frame → List Frame → Option Regex
finish (normal _) f [] = some (frame_regex f)
finish _ _ _ = none

abbrev pub finish_state : Option State → Option Regex
finish_state none = none
finish_state (some s) = finish s.mode s.frame s.outer

abbrev pub start : State
start = record { mode = normal item; frame = new_frame; outer = [] }

-- `regexp.Compile`
unfoldable pub compile : Text → Option Regex
unfolding parse
compile text = finish_state (parse (some start) text)
