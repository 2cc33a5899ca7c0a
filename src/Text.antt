-- ===== src/Text.antt =====
-- Rust's `String` and `&str` as the list of their bytes, with equality and the byte order of `Ord`.
use Prim.Native.Char.{code}
use Prim.Native.String.{String}
use sentinel_command.Prelude.{
  ℕ, ◌≡◌, refl, ◌↔◌, Bool, true, false, ◌&&◌, Ordering, compare, List, [], ◌∷◌, arith, Option, none,
  some, nat_beq, leb, if◌then◌else◌,
}
use sentinel_command.Interfaces.{Eq, Order, flip, then_with}

abbrev pub Text : Type 0
Text = List ℕ

-- The bytes of an ASCII literal.
abbrev pub codes : String → Text
codes String.[] = []
codes (String.◌∷◌ c s) = code c ∷ codes s

abbrev pub text_beq : Text → Text → Bool
text_beq [] [] = true
text_beq [] (y ∷ ys) = false
text_beq (x ∷ xs) [] = false
text_beq (x ∷ xs) (y ∷ ys) = nat_beq x y && text_beq xs ys

pub text_beq_iff : (a b : Text) → (text_beq a b ≡ true) ↔ (a ≡ b)
text_beq_iff [] [] = (λ _. refl, λ _. refl)
text_beq_iff [] (y ∷ ys) = (λ e. cc, λ e. cc)
text_beq_iff (x ∷ xs) [] = (λ e. cc, λ e. cc)
text_beq_iff (x ∷ xs) (y ∷ ys) = ground (arith, text_beq_iff xs ys)

instance abbrev pub text_eq : Eq Text
text_eq = record { beq = text_beq; beq_iff = text_beq_iff }

-- `str::cmp`: byte by byte, a proper prefix first.
abbrev pub text_cmp : Text → Text → Ordering
text_cmp [] [] = Ordering.eq
text_cmp [] (y ∷ ys) = Ordering.lt
text_cmp (x ∷ xs) [] = Ordering.gt
text_cmp (x ∷ xs) (y ∷ ys) = then_with (compare x y) (text_cmp xs ys)

pub text_cmp_eq : (a b : Text) → (text_cmp a b ≡ Ordering.eq) ↔ (a ≡ b)
text_cmp_eq [] [] = (λ _. refl, λ _. refl)
text_cmp_eq [] (y ∷ ys) = (λ e. cc, λ e. cc)
text_cmp_eq (x ∷ xs) [] = (λ e. cc, λ e. cc)
text_cmp_eq (x ∷ xs) (y ∷ ys) = ground (arith, text_cmp_eq xs ys)

pub text_cmp-flip : (a b : Text) → text_cmp b a ≡ flip (text_cmp a b)
text_cmp-flip [] [] = refl
text_cmp-flip [] (y ∷ ys) = refl
text_cmp-flip (x ∷ xs) [] = refl
text_cmp-flip (x ∷ xs) (y ∷ ys) = ground (arith, text_cmp-flip xs ys)

pub text_cmp_trans :
    (a b c : Text)
    → text_cmp a b ≡ Ordering.lt
    → text_cmp b c ≡ Ordering.lt
    → text_cmp a c ≡ Ordering.lt
text_cmp_trans [] [] c h k = cc
text_cmp_trans [] (y ∷ ys) [] h k = cc
text_cmp_trans [] (y ∷ ys) (z ∷ zs) h k = refl
text_cmp_trans (x ∷ xs) [] c h k = cc
text_cmp_trans (x ∷ xs) (y ∷ ys) [] h k = cc
text_cmp_trans (x ∷ xs) (y ∷ ys) (z ∷ zs) h k = ground (arith, text_cmp_trans xs ys zs)

abbrev pub text_order : Order Text
text_order = record {
  cmp = text_cmp;
  cmp_eq = text_cmp_eq;
  cmp_flip = text_cmp-flip;
  cmp_trans = text_cmp_trans;
}

-- `str::strip_prefix`: the rest behind a prefix.
abbrev pub strip_prefix : Text → Text → Option Text
strip_prefix [] s = some s
strip_prefix (p ∷ ps) [] = none
strip_prefix (p ∷ ps) (c ∷ s) = if nat_beq p c then strip_prefix ps s else none

abbrev pub is_ascii_digit : ℕ → Bool
is_ascii_digit c = leb b'0' c && leb c b'9'

-- The longest prefix of ASCII digits, and what follows it.
abbrev pub leading_digits : Text → Text
leading_digits [] = []
leading_digits (c ∷ s) = let rest = leading_digits s in if is_ascii_digit c then c ∷ rest else []

abbrev pub is_empty {ℓ} : {A : Type ℓ} → List A → Bool
is_empty [] = true
is_empty (x ∷ xs) = false
