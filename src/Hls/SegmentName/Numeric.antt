-- ===== src/Hls/SegmentName/Numeric.antt =====
-- hls.rs, `SegmentName`: the order of the names is the order of the numbers in them.
use native.Mathlib.Nat.{pow-suc, pow-le-pow_right}
use sentinel_command.Prelude.{
  ℕ, ◌+◌, ◌-◌, ◌*◌, ◌^◌, ◌≤◌, ◌<◌, ◌≡◌, refl, [], ◌∷◌, ◌++◌, Ordering, compare, arith, length, All,
  ap,
}
use sentinel_command.Interfaces.{then_with}
use sentinel_command.Text.{Text, codes, leading_digits, text_cmp}
use sentinel_command.Hls.SegmentName.{trim_zeros, sequence, cmp}

abbrev pub IsDigit : ℕ → Type 0
IsDigit c = (48 ≤ c) × (c ≤ 57)

-- The number that a string of decimal digits writes.
unfoldable pub value : Text → ℕ
value [] = 0
value (c ∷ s) = (c - 48) * 10 ^ length s + value s

-- `segment_<digits>.ts`, the names that a CameraNode writes.
abbrev pub segment_file : Text → Text
segment_file ds = codes "segment_" ++ ds ++ codes ".ts"

leading_digits-append : (ds : Text) → All IsDigit ds → leading_digits (ds ++ codes ".ts") ≡ ds
leading_digits-append [] a = refl
leading_digits-append (c ∷ ds) a = ground (arith, leading_digits-append ds a.1)

sequence-segment_file : (ds : Text) → All IsDigit ds → sequence (segment_file ds) ≡ trim_zeros ds
unfolding sequence
sequence-segment_file ds a = ap trim_zeros (leading_digits-append ds a)

value-trim_zeros : (ds : Text) → value (trim_zeros ds) ≡ value ds
unfolding value trim_zeros
value-trim_zeros [] = refl
value-trim_zeros (c ∷ ds) = ground (arith, value-trim_zeros ds)

trim_zeros-All : (ds : Text) → All IsDigit ds → All IsDigit (trim_zeros ds)
unfolding trim_zeros
trim_zeros-All [] a = tt
trim_zeros-All (c ∷ ds) a = ground (arith, trim_zeros-All ds a.1)

value-lt-pow : (ds : Text) → All IsDigit ds → value ds < 10 ^ length ds
unfolding value
value-lt-pow [] a = omega arith
value-lt-pow (c ∷ ds) a = grind (arith, value-lt-pow ds a.1, pow-suc 10 (length ds))

-- Empty, or with a first digit that is not 0.
abbrev IsTrimmed : Text → Type 0
IsTrimmed [] = Unit {0}
IsTrimmed (c ∷ ds) = 49 ≤ c

trim_zeros-IsTrimmed : (ds : Text) → All IsDigit ds → IsTrimmed (trim_zeros ds)
unfolding trim_zeros
trim_zeros-IsTrimmed [] a = tt
trim_zeros-IsTrimmed (c ∷ ds) a = ground (arith, trim_zeros-IsTrimmed ds a.1)

-- Fewer digits is a smaller number, if the longer number has no leading zero.
shorter : (a b : Text) → All IsDigit a → IsTrimmed b → length a < length b → value a < value b
unfolding value
shorter a [] p t h = absurd (omega arith)
shorter a (y ∷ b) p t h = grind (
  arith,
  value-lt-pow a p,
  pow-le-pow_right {n = 10} (omega arith) {i = length a} {j = length b} (omega arith),
)

higher_digit : (c d p v w : ℕ) → c < d → v < p → c * p + v < d * p + w
higher_digit c d p v w h k = grind arith

same_length :
    (a b : Text)
    → All IsDigit a
    → All IsDigit b
    → length a ≡ length b
    → value a < value b
    → text_cmp a b ≡ Ordering.lt
unfolding value
same_length [] [] p q e h = absurd (omega arith)
same_length [] (y ∷ b) p q e h = absurd (omega arith)
same_length (x ∷ a) [] p q e h = absurd (omega arith)
same_length (x ∷ a) (y ∷ b) p q e h =
    let e' : length a ≡ length b = omega arith in
    ground (
      arith,
      same_length a b p.1 q.1 e',
      ap (λ (n : ℕ). 10 ^ n) e',
      value-lt-pow b q.1,
      higher_digit (y - 48) (x - 48) (10 ^ length a) (value b) (value a),
    )

trimmed-lt :
    (a b : Text)
    → All IsDigit a
    → All IsDigit b
    → IsTrimmed a
    → value a < value b
    → then_with (compare (length a) (length b)) (text_cmp a b) ≡ Ordering.lt
trimmed-lt a b p q t h = ground (arith, same_length a b p q, shorter b a q t)

-- Of two segment files the one with the smaller number comes first, however many digits and
-- leading zeros either number is written with: `segment_99999.ts` before `segment_100000.ts`.
pub cmp-segment_file :
    (ds es : Text)
    → All IsDigit ds
    → All IsDigit es
    → value ds < value es
    → cmp (segment_file ds) (segment_file es) ≡ Ordering.lt
unfolding cmp
cmp-segment_file ds es p q h =
    rw (sequence-segment_file ds p, sequence-segment_file es q)
      (ground (
        arith,
        trim_zeros-All ds p,
        trim_zeros-All es q,
        trim_zeros-IsTrimmed ds p,
        value-trim_zeros ds,
        value-trim_zeros es,
        trimmed-lt (trim_zeros ds) (trim_zeros es) (trim_zeros-All ds p) (trim_zeros-All es q)
            (trim_zeros-IsTrimmed ds p),
      ))
