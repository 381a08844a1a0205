-- ===== src/Adapters/OpenAdr/Duration/RoundTrip.antt =====
-- The writing and the reading of durations (src/der_flex/adapters/openadr/adapter.py).
use der_flex.Prelude.{
  ℕ, ◌+◌, ◌≡◌, ◌≤◌, Bool, true, false, [], ◌∷◌, ◌++◌, nat_eq, arith, refl, if◌then◌else◌, ◌&&◌,
  ◌||◌, not, inl, inr, Bool-cases, some, none, ok, ◌==◌, ◌*◌,
}
use Prim.Native.Nat.{zero, suc, ◌/◌, ◌%◌}
use mathlib.Core.Path.{◌∙◌, subst, sym}
use der_flex.Adapters.OpenAdr.Duration.{
  Text, is_digit, scan, emit, group, parse_groups, parse_duration, iso_duration, decimal, total,
  checked, is_end, is_some,
}

emit-append : (fuel n : ℕ) (out rest : Text) → emit fuel n out ++ rest ≡ emit fuel n (out ++ rest)
unfolding emit
emit-append zero n out rest = refl
emit-append (suc fuel) zero out rest = refl
emit-append (suc fuel) (suc m) out rest =
    emit-append fuel (suc m / 10) ((48 + suc m % 10) ∷ out) rest

-- Reading a digit that was written.
scan-digit : (n : ℕ) (out : Text) → scan (n / 10) ((48 + n % 10) ∷ out) ≡ scan n out
unfolding scan
scan-digit n out = ground (arith)

scan-emit : (fuel n : ℕ) (out : Text) → n ≤ fuel → scan 0 (emit fuel n out) ≡ scan n out
unfolding emit
scan-emit zero n out h = ground (arith)
scan-emit (suc fuel) zero out h = refl
scan-emit (suc fuel) (suc m) out h =
    scan-emit fuel (suc m / 10) ((48 + suc m % 10) ∷ out) (omega arith) ∙ scan-digit (suc m) out

-- The first character of a written number is a digit.
starts : Text → Bool
starts [] = false
starts (c ∷ s) = is_digit c

emit-starts : (fuel n : ℕ) (out : Text) → starts out ≡ true → starts (emit fuel n out) ≡ true
unfolding emit starts
emit-starts zero n out h = h
emit-starts (suc fuel) zero out h = h
emit-starts (suc fuel) (suc m) out h =
    emit-starts fuel (suc m / 10) ((48 + suc m % 10) ∷ out) (ground (arith))

written-starts : (n : ℕ) → 1 ≤ n → starts (emit n n (83 ∷ [])) ≡ true
unfolding emit starts
written-starts zero h = absurd (omega arith)
written-starts (suc m) h = emit-starts m (suc m / 10) ((48 + suc m % 10) ∷ 83 ∷ []) (ground (arith))

written-scan : (n : ℕ) → scan 0 (emit n n (83 ∷ [])) ≡ (n, 83 ∷ [])
unfolding scan
written-scan n = scan-emit n n (83 ∷ []) (omega arith)

-- A group on a text that is a number and an `S`.
group-seconds :
    (unit n : ℕ) (s : Text)
    → starts s ≡ true
    → scan 0 s ≡ (n, 83 ∷ [])
    → group unit s ≡ (if 83 == unit then (some n, []) else (none, s))
unfolding starts
group-seconds unit n [] h k = absurd (cc h)
group-seconds unit n (c ∷ s) h k = ground (arith, h, k)

seconds-only :
    (n : ℕ) (s : Text)
    → starts s ≡ true
    → scan 0 s ≡ (n, 83 ∷ [])
    → parse_groups s ≡ checked (0 * 3600 + 0 * 60 + n)
unfolding parse_groups
seconds-only n s h k =
    ground (arith, group-seconds 72 n s h k, group-seconds 77 n s h k, group-seconds 83 n s h k)

-- A duration between one second and one day is read back from the text that a report gives it.
pub parse_duration-iso_duration :
    (n : ℕ) → 1 ≤ n → n ≤ 86400 → parse_duration (iso_duration n) ≡ ok n
unfolding parse_duration iso_duration
parse_duration-iso_duration n low high =
    let text : decimal n ++ 83 ∷ [] ≡ emit n n (83 ∷ []) =
      ground (arith, emit-append n n [] (83 ∷ [])) in
    subst {A = Text} (λ s. parse_groups s ≡ ok n) (sym text)
      (seconds-only n (emit n n (83 ∷ [])) (written-starts n low) (written-scan n)
        ∙ ground (arith, low, high))

checked-within : (m n : ℕ) → checked m ≡ ok n → (1 ≤ n) × (n ≤ 86400)
checked-within m n h = (ground (arith, h), ground (arith, h))

groups-within : (s : Text) (n : ℕ) → parse_groups s ≡ ok n → (1 ≤ n) × (n ≤ 86400)
unfolding parse_groups
groups-within s n h =
    let hours = group 72 s in
    let minutes = group 77 hours.1 in
    let seconds = group 83 minutes.1 in
    elim (Bool-cases
      (not (is_end seconds.1) || not (is_some hours.0 || is_some minutes.0 || is_some seconds.0))) [
        | inl e ↦ absurd (ground (arith, h, e))
        | inr e ↦ checked-within (total hours.0 minutes.0 seconds.0) n (ground (arith, h, e))
      ]

-- A duration that is accepted is of one second to one day.
pub parse_duration-within : (s : Text) (n : ℕ) → parse_duration s ≡ ok n → (1 ≤ n) × (n ≤ 86400)
unfolding parse_duration
parse_duration-within [] n h = absurd (cc h)
parse_duration-within (p ∷ []) n h = absurd (cc h)
parse_duration-within (p ∷ t ∷ s) n h = elim (Bool-cases (p == 80 && t == 84)) [
  | inl e ↦ groups-within s n (ground (arith, h, e))
  | inr e ↦ absurd (ground (arith, h, e))
]
