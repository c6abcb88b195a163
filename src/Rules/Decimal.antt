-- ===== src/Rules/Decimal.antt =====
-- What the sequence rule writes (crates/renamewright-core/src/rules.rs): the decimal number of its value,
-- padded with zeros, on its side of the name.
use renamewright.Common.{
  ℕ, zero, suc, ◌+◌, ◌-◌, ◌*◌, ◌/◌, ◌%◌, ◌^◌, ◌≤◌, ◌<◌, ◌≡◌, ◌≢◌, ◌⊎◌, refl, ap, ◌∙◌, some, [], ◌∷◌,
  ◌++◌, arith, All, length, replicate, usize_max, ltb, inl, inr, ok, max, if_cases,
}
use native.Mathlib.Nat.{pow-suc}
use renamewright.Text.{Str, OsString, from_str}
use renamewright.Rules.Types.{
  SequenceScope, SequenceOrder, SequencePlacement, as_prefix, as_suffix, sequence, Libraries,
}
use renamewright.Rules.Apply.{decimal_loop, format_padded, apply_compiled}

-- The number that digits add to those in front of them.
abbrev pub numeral : ℕ → Str → ℕ
numeral n [] = n
numeral n (c ∷ s) = numeral (n * 10 + (c - b'0')) s

abbrev pub IsDigit : ℕ → Type 0
IsDigit c = (b'0' ≤ c) × (c ≤ b'9')

abbrev LeadsNonZero : Str → Type 0
LeadsNonZero s = (d : ℕ) × (rest : Str) × (s ≡ d ∷ rest) × (d ≢ b'0')

-- The decimal digits of the number, the first of which is zero for zero alone.
abbrev pub IsDecimal : ℕ → Str → Type 0
IsDecimal value digits =
    All IsDigit digits
    × (numeral 0 digits ≡ value)
    × ((digits ≡ b'0' ∷ []) ⊎ ((d : ℕ) × (rest : Str) × (digits ≡ d ∷ rest) × (d ≢ b'0')))

numeral-decimal_loop :
    (fuel n : ℕ) (out : Str) → n < 10 ^ fuel → numeral 0 (decimal_loop fuel n out) ≡ numeral n out
unfolding decimal_loop
numeral-decimal_loop zero n out h = let e : n ≡ 0 = omega arith in rw e
numeral-decimal_loop (suc fuel) n out h =
    let smaller : n / 10 < 10 ^ fuel = omega (arith, pow-suc 10 fuel) in
    let last : (n / 10) * 10 + ((b'0' + n % 10) - b'0') ≡ n = omega arith in
    let first : 0 * 10 + ((b'0' + n) - b'0') ≡ n = omega arith in
    if_cases (λ s. numeral 0 s ≡ numeral n out) (ltb n 10) _ _
      (λ small. ap (λ k. numeral k out) first)
      (λ large.
        numeral-decimal_loop fuel (n / 10) ((b'0' + n % 10) ∷ out) smaller
        ∙ ap (λ k. numeral k out) last)

decimal_loop-IsDigit :
    (fuel n : ℕ) (out : Str) → All IsDigit out → All IsDigit (decimal_loop fuel n out)
unfolding decimal_loop
decimal_loop-IsDigit zero n out h = h
decimal_loop-IsDigit (suc fuel) n out h =
    if_cases (All IsDigit) (ltb n 10) _ _ (λ small. ((omega arith, ground arith), h))
      (λ large.
        decimal_loop-IsDigit fuel (n / 10) ((b'0' + n % 10) ∷ out) ((omega arith, omega arith), h))

decimal_loop-LeadsNonZero :
    (fuel n : ℕ) (out : Str) → n < 10 ^ fuel → 0 < n → LeadsNonZero (decimal_loop fuel n out)
unfolding decimal_loop
decimal_loop-LeadsNonZero zero n out h some_digit = absurd (omega arith)
decimal_loop-LeadsNonZero (suc fuel) n out h some_digit =
    let smaller : n / 10 < 10 ^ fuel = omega (arith, pow-suc 10 fuel) in
    if_cases LeadsNonZero (ltb n 10) _ _ (λ small. (b'0' + n, out, refl, λ p. omega (arith, p)))
      (λ large.
        decimal_loop-LeadsNonZero fuel (n / 10) ((b'0' + n % 10) ∷ out) smaller (ground arith))

-- Twenty digits are enough for every `u64`.
decimal_loop-IsDecimal :
    (value : ℕ) → value ≤ usize_max → IsDecimal value (decimal_loop 20 value [])
decimal_loop-IsDecimal zero h =
    unfold decimal_loop in (((omega arith, omega arith), tt), refl, inl refl)
decimal_loop-IsDecimal (suc n) h = (
  decimal_loop-IsDigit 20 (suc n) [] tt,
  numeral-decimal_loop 20 (suc n) [] (omega arith),
  inr (decimal_loop-LeadsNonZero 20 (suc n) [] (omega arith) (omega arith)),
)

-- The number stands in front of the name or behind it, with the separator between them.
abbrev pub IsPlaced : SequencePlacement → OsString → OsString → OsString → OsString → Type 0
IsPlaced as_prefix number separator name proposed = proposed ≡ number ++ (separator ++ name)
IsPlaced as_suffix number separator name proposed = proposed ≡ name ++ (separator ++ number)

module _ (lib : Libraries) where
  -- For every `u64` value, the sequence rule writes the decimal digits of the value behind as many zeros
  -- as it takes to reach the padding, and places them with the separator in front of the name or
  -- behind it.
  pub apply_compiled-sequence :
      (scope : SequenceScope) (order : SequenceOrder) (start step padding : ℕ)
      (placement : SequencePlacement) (separator : Str) (name : OsString) (value : ℕ)
      → value ≤ usize_max
      → (zeros : ℕ) × (digits : Str) × (proposed : OsString) × (apply_compiled lib
            (sequence scope order start step padding placement separator)
            name
            (some value)
          ≡ ok proposed)
        × IsDecimal value digits
        × (zeros + length digits ≡ max padding (length digits))
        × IsPlaced placement
            (from_str (replicate zeros b'0' ++ digits))
            (from_str separator)
            name
            proposed
  unfolding apply_compiled format_padded
  apply_compiled-sequence scope order start step padding as_prefix separator name value h = (
    padding - length (decimal_loop 20 value []),
    decimal_loop 20 value [],
    _,
    refl,
    decimal_loop-IsDecimal value h,
    ground arith,
    refl,
  )
  apply_compiled-sequence scope order start step padding as_suffix separator name value h = (
    padding - length (decimal_loop 20 value []),
    decimal_loop 20 value [],
    _,
    refl,
    decimal_loop-IsDecimal value h,
    ground arith,
    refl,
  )
