-- ===== src/Hls/SegmentName.antt =====
-- backend-rs/src/hls.rs, `SegmentName`: a segment's file name, ordered by its sequence number.
pub mod Numeric
use sentinel_command.Prelude.{
  ◌≡◌, ◌↔◌, [], ◌∷◌, Option, none, some, Ordering, compare, arith, length, if◌then◌else◌,
}
use sentinel_command.Interfaces.{Order, flip, then_with}
use sentinel_command.Text.{
  Text, codes, strip_prefix, leading_digits, text_cmp, text_cmp_eq, text_cmp-flip, text_cmp_trans,
}

-- `struct SegmentName(String)`.
abbrev pub SegmentName : Type 0
SegmentName = Text

-- `trim_start_matches('0')`.
unfoldable pub trim_zeros : Text → Text
trim_zeros [] = []
trim_zeros (c ∷ s) = elim (compare c b'0') [ Ordering.eq ↦ trim_zeros s | _ ↦ c ∷ s ]

abbrev pub unwrap_or : Option Text → Text → Text
unwrap_or none s = s
unwrap_or (some t) s = t

unfoldable pub sequence : SegmentName → Text
unfolding trim_zeros
sequence name = trim_zeros (leading_digits (unwrap_or (strip_prefix (codes "segment_") name) name))

unfoldable pub cmp : SegmentName → SegmentName → Ordering
cmp s t =
    let a = sequence s in
    let b = sequence t in
    then_with (compare (length a) (length b)) (then_with (text_cmp a b) (text_cmp s t))

pub cmp_eq : (s t : SegmentName) → (cmp s t ≡ Ordering.eq) ↔ (s ≡ t)
unfolding cmp
cmp_eq s t = ground (arith, text_cmp_eq s t, text_cmp_eq (sequence s) (sequence t))

pub cmp_flip : (s t : SegmentName) → cmp t s ≡ flip (cmp s t)
unfolding cmp
cmp_flip s t = ground (arith, text_cmp-flip s t, text_cmp-flip (sequence s) (sequence t))

pub cmp_trans :
    (s t u : SegmentName) → cmp s t ≡ Ordering.lt → cmp t u ≡ Ordering.lt → cmp s u ≡ Ordering.lt
unfolding cmp
cmp_trans s t u h k = ground (
  arith,
  text_cmp_trans s t u,
  text_cmp_trans (sequence s) (sequence t) (sequence u),
  text_cmp_eq (sequence s) (sequence t),
  text_cmp_eq (sequence t) (sequence u),
  text_cmp_eq (sequence s) (sequence u),
)

abbrev pub segment_order : Order SegmentName
segment_order = record { cmp = cmp; cmp_eq = cmp_eq; cmp_flip = cmp_flip; cmp_trans = cmp_trans }
