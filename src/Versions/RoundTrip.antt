-- ===== src/Versions/RoundTrip.antt =====
-- versions.rs: what is written is read back.
use sentinel_command.Prelude.{
  ℕ, zero, suc, ◌+◌, ◌-◌, ◌*◌, ◌/◌, ◌%◌, ◌≤◌, ◌≡◌, refl, sym, ap, ◌∙◌, true, false, not, [], ◌∷◌,
  ◌++◌, All, none, some, length, drop, ltb, if◌then◌else◌, arith, Bool-cases, inl, inr,
}
use sentinel_command.Text.{Text, leading_digits, is_ascii_digit, is_empty}
use sentinel_command.Versions.{
  Version, u64_max, value, read_part, read_dot_part, trim_spaces, strip_v, parse_parts,
  parse_version, digits_of, format_version, is_older, check_node_version,
}

abbrev IsDigit : ℕ → Type 0
IsDigit c = is_ascii_digit c ≡ true

value-append : (n d : ℕ) (xs : Text) → value n (xs ++ d ∷ []) ≡ value n xs * 10 + (d - b'0')
unfolding value
value-append n d [] = refl
value-append n d (x ∷ xs) = value-append (n * 10 + (x - b'0')) d xs

All-IsDigit_append : (d : ℕ) (xs : Text) → All IsDigit xs → IsDigit d → All IsDigit (xs ++ d ∷ [])
All-IsDigit_append d [] a h = (h, tt)
All-IsDigit_append d (x ∷ xs) a h = (a.0, All-IsDigit_append d xs a.1 h)

-- What `to_string` writes: digits, at least one, that write the number.
record Writes (n : ℕ) (digits : Text) : Type 0 where
  writes_value : value 0 digits ≡ n
  all_digits : All IsDigit digits
  not_empty : is_empty digits ≡ false

is_empty-append : (xs : Text) (d : ℕ) → is_empty (xs ++ d ∷ []) ≡ false
is_empty-append [] d = refl
is_empty-append (x ∷ xs) d = refl

digits_of-Writes : (left n : ℕ) → n ≤ left → Writes n (digits_of left n)
unfolding digits_of value
digits_of-Writes zero n h = record {
  writes_value = omega arith;
  all_digits = (ground (arith, h), tt);
  not_empty = refl;
}
digits_of-Writes (suc left) n h = elim (Bool-cases (ltb n 10)) [
  | inl small ↦
      rw (small, digits_of)
        (record {
          writes_value = omega arith;
          all_digits = (ground (arith, small), tt);
          not_empty = refl;
        })
  | inr large ↦
      let most = n / 10 in
      let rest = digits_of-Writes left most (ground (arith, large, h)) in
      rw (large, digits_of)
        (record {
          writes_value =
              value-append 0 (b'0' + n % 10) (digits_of left most)
              ∙ omega (arith, rest.writes_value);
          all_digits =
              All-IsDigit_append (b'0' + n % 10) (digits_of left most) rest.all_digits
                (ground arith);
          not_empty = is_empty-append (digits_of left most) (b'0' + n % 10);
        })
]

leading_digits-digits :
    (ds rest : Text) → All IsDigit ds → leading_digits rest ≡ [] → leading_digits (ds ++ rest) ≡ ds
leading_digits-digits [] rest a h = h
leading_digits-digits (c ∷ ds) rest a h = ground (arith, leading_digits-digits ds rest a.1 h, a.0)

drop-length-append : (ds rest : Text) → drop (length ds) (ds ++ rest) ≡ rest
drop-length-append [] rest = refl
drop-length-append (c ∷ ds) rest = drop-length-append ds rest

read_part-digits_of :
    (n : ℕ) (rest : Text)
    → n ≤ u64_max
    → leading_digits rest ≡ []
    → read_part (digits_of n n ++ rest) ≡ some (n, rest)
read_part-digits_of n rest h stops =
    let w = digits_of-Writes n n (omega arith) in
    rw (leading_digits-digits (digits_of n n) rest w.all_digits stops) (
      rw w.not_empty
        (rw (drop-length-append (digits_of n n) rest) (rw w.writes_value (ground (arith, h)))))

append-nil : (xs : Text) → xs ++ [] ≡ xs
append-nil [] = refl
append-nil (x ∷ xs) = ap (λ (ys : Text). x ∷ ys) (append-nil xs)

read_last-digits_of : (n : ℕ) → n ≤ u64_max → read_part (digits_of n n) ≡ some (n, [])
read_last-digits_of n h =
    ap (λ (s : Text). read_part s) (sym (append-nil (digits_of n n)))
    ∙ read_part-digits_of n [] h refl

-- Each part of a version fits its `u64`.
abbrev pub Fits : Version → Type 0
Fits (major, minor, patch) = (major ≤ u64_max) × (minor ≤ u64_max) × (patch ≤ u64_max)

parse_parts_lem :
    (s s₁ s₂ s₃ : Text) (a b c : ℕ)
    → read_part s ≡ some (a, s₁)
    → read_dot_part s₁ ≡ some (b, s₂)
    → read_dot_part s₂ ≡ some (c, s₃)
    → parse_parts s ≡ (a, b, c)
unfolding parse_parts
parse_parts_lem s s₁ s₂ s₃ a b c e f g =
    rw (e, parse_parts) (rw (f, parse_parts) (rw (g, parse_parts) refl))

parse_parts-format_version : (v : Version) → Fits v → parse_parts (format_version v) ≡ v
unfolding format_version
parse_parts-format_version (major, minor, patch) (h, k, l) =
    let last = digits_of patch patch in
    let middle = digits_of minor minor ++ b'.' ∷ last in
    parse_parts_lem (digits_of major major ++ b'.' ∷ middle) (b'.' ∷ middle) (b'.' ∷ last) [] major
      minor patch (read_part-digits_of major (b'.' ∷ middle) h refl)
      (read_part-digits_of minor (b'.' ∷ last) k refl) (read_last-digits_of patch l)

-- A text that begins with a digit is read as it stands.
trims_nothing :
    (ds rest : Text)
    → All IsDigit ds
    → is_empty ds ≡ false
    → strip_v (trim_spaces (ds ++ rest)) ≡ ds ++ rest
unfolding trim_spaces
trims_nothing [] rest a h = absurd (cc h)
trims_nothing (c ∷ ds) rest a h = ground (arith, a.0)

is_empty-digits : (ds rest : Text) → is_empty ds ≡ false → is_empty (ds ++ rest) ≡ false
is_empty-digits [] rest h = absurd (cc h)
is_empty-digits (c ∷ ds) rest h = refl

is_empty-format_version : (v : Version) → is_empty (format_version v) ≡ false
unfolding format_version
is_empty-format_version (major, minor, patch) =
    is_empty-digits (digits_of major major) _ (digits_of-Writes major major (omega arith)).not_empty

trims-format_version : (v : Version) → strip_v (trim_spaces (format_version v)) ≡ format_version v
unfolding format_version
trims-format_version (major, minor, patch) =
    let w = digits_of-Writes major major (omega arith) in
    trims_nothing (digits_of major major) _ w.all_digits w.not_empty

parse_version-format_version : (v : Version) → Fits v → parse_version (some (format_version v)) ≡ v
unfolding parse_version
parse_version-format_version v h =
    rw (is_empty-format_version v)
      (ap parse_parts (trims-format_version v) ∙ parse_parts-format_version v h)

-- A node that reports a version as it is written is supported exactly when it is not older than the
-- least one, is offered the latest one exactly when it is older, and gets its own text back: the three
-- texts are read back to the versions that they were written from, if their parts fit a `u64`.
pub check_node_version-format_version :
    (v least latest : Version)
    → Fits v
    → Fits least
    → Fits latest
    → check_node_version (some (format_version v)) (format_version least) (format_version latest)
      ≡ record {
        reported = some (format_version v);
        parsed = format_version v;
        supported = not (is_older v least);
        min_supported = format_version least;
        latest = format_version latest;
        update_available = if is_older v latest then some (format_version latest) else none;
      }
unfolding check_node_version
check_node_version-format_version v least latest h k l = rw (parse_version-format_version v h) (
    rw (parse_version-format_version least k)
      (rw (parse_version-format_version latest l) (rw (is_empty-format_version v) refl)))
