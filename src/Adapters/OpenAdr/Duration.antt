-- ===== src/Adapters/OpenAdr/Duration.antt =====
-- The durations of OpenADR: `parse_duration` and the text that `_build_report` writes
-- (src/der_flex/adapters/openadr/adapter.py).
--
-- A text is the list of its code points. `\d` is a decimal digit of ASCII here.
pub mod RoundTrip
use der_flex.Prelude.{
  ℕ, ◌+◌, ◌-◌, ◌*◌, ◌&&◌, ◌||◌, not, Bool, true, false, Option, none, some, List, [], ◌∷◌, Result,
  ok, err, leb, ltb, ◌==◌, nat_eq, if◌then◌else◌, ◌++◌,
}
use Prim.Native.Nat.{zero, suc, ◌/◌, ◌%◌}

abbrev pub Text : Type 0
Text = List ℕ

-- The two ValueErrors.
pub data DurationError : Type 0 where
  unsupported out_of_range : DurationError

abbrev pub is_digit : ℕ → Bool
is_digit c = leb 48 c && leb c 57

-- The digits in front of a text, behind the number `n`, and what follows them.
unfoldable pub scan : ℕ → Text → ℕ × Text
scan n [] = (n, [])
scan n (c ∷ s) = let rest = scan (n * 10 + (c - 48)) s in if is_digit c then rest else (n, c ∷ s)

abbrev pub before_unit : ℕ → Text → ℕ × Text → Option ℕ × Text
before_unit unit s (n, []) = (none, s)
before_unit unit s (n, c ∷ rest) = if c == unit then (some n, rest) else (none, s)

-- The group `(?:(\d+)<unit>)?` at the front of a text.
abbrev pub group : ℕ → Text → Option ℕ × Text
group unit [] = (none, [])
group unit (c ∷ s) = if is_digit c then before_unit unit (c ∷ s) (scan 0 (c ∷ s)) else (none, c ∷ s)

abbrev pub or_zero : Option ℕ → ℕ
or_zero none = 0
or_zero (some n) = n

abbrev pub is_some : Option ℕ → Bool
is_some none = false
is_some (some n) = true

abbrev pub is_end : Text → Bool
is_end [] = true
is_end (c ∷ s) = false

abbrev pub total : Option ℕ → Option ℕ → Option ℕ → ℕ
total hours minutes seconds = or_zero hours * 3600 + or_zero minutes * 60 + or_zero seconds

abbrev pub checked : ℕ → Result DurationError ℕ
checked n = if ltb 0 n && leb n 86400 then ok n else err out_of_range

-- `H`, `M` and `S`.
unfoldable pub parse_groups : Text → Result DurationError ℕ
unfolding scan
parse_groups s =
    let (hours, after_hours) = group 72 s in
    let (minutes, after_minutes) = group 77 after_hours in
    let (seconds, rest) = group 83 after_minutes in
    if not (is_end rest) || not (is_some hours || is_some minutes || is_some seconds)
    then err unsupported
    else checked (total hours minutes seconds)

-- The number of seconds.
unfoldable pub parse_duration : Text → Result DurationError ℕ
unfolding parse_groups
parse_duration [] = err unsupported
parse_duration (p ∷ []) = err unsupported
parse_duration (p ∷ t ∷ s) = if p == 80 && t == 84 then parse_groups s else err unsupported

-- The digits of `n` in front of `out`; as many rounds as `n` are enough.
unfoldable pub emit : ℕ → ℕ → Text → Text
emit zero n out = out
emit (suc fuel) zero out = out
emit (suc fuel) (suc m) out = emit fuel (suc m / 10) ((48 + suc m % 10) ∷ out)

-- `str(n)`
abbrev pub decimal : ℕ → Text
decimal n = if n == 0 then 48 ∷ [] else emit n n []

-- `f"PT{n}S"`
unfoldable pub iso_duration : ℕ → Text
unfolding emit
iso_duration n = 80 ∷ 84 ∷ decimal n ++ 83 ∷ []
