-- ===== src/Http/Text.antt =====
-- Text that server/http.go makes: strconv.Itoa, fmt.Sprintf, and the test for a prefix.
use icecast_proxy_go.Prelude.{
  ℕ, zero, suc, ◌+◌, ◌-◌, ◌*◌, ◌/◌, ◌%◌, ◌≡◌, ◌<◌, ◌≤◌, ◌^◌, pos, refl, sym, ap, ◌∙◌, Bool-cases,
  inl, inr, Bool, true, false, ◌&&◌, List, [], ◌∷◌, ◌++◌, some, Str, ◌==◌, ltb, leb, if◌then◌else◌,
  arith,
}
use icecast_proxy_go.Shout.Options.{digits_value, atoi}

-- The decimal digits of a number in front of `s`: each round takes one digit, so that n rounds
-- behind the first are enough for n.
unfoldable pub itoa_from : ℕ → ℕ → Str → Str
itoa_from zero n s = s
itoa_from (suc fuel) n s =
    let rest = itoa_from fuel (n / 10) ((b'0' + n % 10) ∷ s) in
    if ltb n 10 then (b'0' + n) ∷ s else rest

-- strconv.Itoa of a number that is not negative.
unfoldable pub itoa : ℕ → Str
itoa n = itoa_from (suc n) n []

-- fmt.Sprintf, with the arguments as text: a verb takes the next one. Each format gets as many
-- arguments as it has verbs.
unfoldable pub sprintf : Str → List Str → Str
sprintf [] args = []
sprintf (c ∷ []) args = c ∷ []
sprintf (c ∷ v ∷ s) args =
    let plain = sprintf (v ∷ s) args in
    if c == b'%' then elim args [ [] ↦ plain | a ∷ others ↦ a ++ sprintf s others ] else c ∷ plain

-- `len(path) >= len(prefix) && path[:len(prefix)] == prefix`
unfoldable pub slice_prefix : Str → Str → Bool
slice_prefix [] s = true
slice_prefix (c ∷ prefix) [] = false
slice_prefix (c ∷ prefix) (d ∷ s) = c == d && slice_prefix prefix s

digits_value-digit :
    (acc d : ℕ) (s : Str)
    → d < 10
    → digits_value acc ((b'0' + d) ∷ s) ≡ digits_value (acc * 10 + d) s
unfolding digits_value
digits_value-digit acc d s h = let (e, f, g) = two_tests d h in rw (e, f, g)
  where
    two_tests :
        (d : ℕ)
        → d < 10
        → (leb b'0' (b'0' + d) ≡ true) × (leb (b'0' + d) b'9' ≡ true) × ((b'0' + d) - b'0' ≡ d)
    two_tests d h = ground arith

digits_value-itoa_from :
    (fuel n : ℕ) (s : Str) → n < fuel → digits_value 0 (itoa_from fuel n s) ≡ digits_value n s
unfolding itoa_from
digits_value-itoa_from zero n s h = absurd (omega arith)
digits_value-itoa_from (suc fuel) n s h = elim (Bool-cases (ltb n 10)) [
  | inl small ↦
      rw small (digits_value-digit 0 n s (ground arith) ∙ ap (λ k. digits_value k s) (omega arith))
  | inr large ↦ rw large (
      digits_value-itoa_from fuel (n / 10) ((b'0' + n % 10) ∷ s) (ground arith)
      ∙ digits_value-digit (n / 10) (n % 10) s (omega arith)
      ∙ ap (λ k. digits_value k s) (omega arith))
]

digits_value-itoa : (n : ℕ) → digits_value 0 (itoa n) ≡ some n
unfolding itoa digits_value
digits_value-itoa n = digits_value-itoa_from (suc n) n [] (omega arith)

-- The first byte is a digit, and so no sign.
itoa_from-head :
    (fuel n : ℕ) (s : Str)
    → (d : ℕ) × (rest : Str) × (itoa_from (suc fuel) n s ≡ d ∷ rest) × (b'0' ≤ d)
unfolding itoa_from
itoa_from-head fuel n s = elim (Bool-cases (ltb n 10)) [
  | inl small ↦ (b'0' + n, s, rw small, omega arith)
  | inr large ↦
      let (d, rest, e, digit) =
        later fuel (n / 10) ((b'0' + n % 10) ∷ s) (b'0' + n % 10) s refl (omega arith) in
      (d, rest, rw large e, digit)
]
  where
    later :
        (fuel n : ℕ) (s : Str) (c : ℕ) (r : Str)
        → s ≡ c ∷ r
        → b'0' ≤ c
        → (d : ℕ) × (rest : Str) × (itoa_from fuel n s ≡ d ∷ rest) × (b'0' ≤ d)
    later zero n s c r e h = (c, r, e, h)
    later (suc fuel) n s c r e h = elim (Bool-cases (ltb n 10)) [
      | inl small ↦ (b'0' + n, s, rw small, omega arith)
      | inr large ↦
          let (d, rest, f, digit) =
            later fuel (n / 10) ((b'0' + n % 10) ∷ s) (b'0' + n % 10) s refl (omega arith) in
          (d, rest, rw large f, digit)
    ]

-- Atoi reads back what Itoa writes.
pub atoi-itoa : (n : ℕ) → n < 2 ^ 63 → atoi (itoa n) ≡ some (pos n)
unfolding atoi itoa
atoi-itoa n h =
    let (d, rest, e, digit) = itoa_from-head n n [] in
    let value : digits_value 0 (d ∷ rest) ≡ some n =
      ap (digits_value 0) (sym e) ∙ digits_value-itoa n in
    ap atoi e ∙ ground (arith, digit, value, h)
