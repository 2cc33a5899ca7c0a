-- ===== src/Agent/Drain/Counts.antt =====
-- processor.rs: counting the listed runs that have not ended.
use sentinel_command.Prelude.{
  ℕ, ◌+◌, ◌≤◌, ◌<◌, ◌≡◌, ap, Bool, true, false, List, [], ◌∷◌, length, arith, Bool-cases, inl, inr,
  if◌then◌else◌,
}
use sentinel_command.Interfaces.{◌==◌, ==-refl}
use sentinel_command.Text.{Text, text_eq, text_beq_iff}
use sentinel_command.Assoc.{member}

-- How many of some ids pass a test.
abbrev pub count_open : (Text → Bool) → List Text → ℕ
count_open settled [] = 0
count_open settled (id ∷ ids) = (if settled id then 0 else 1) + count_open settled ids

pub count_open_le :
    (s t : Text → Bool) (ids : List Text)
    → ((id : Text) → member id ids ≡ true → s id ≡ true → t id ≡ true)
    → count_open t ids ≤ count_open s ids
unfolding member
count_open_le s t [] h = omega arith
count_open_le s t (x ∷ ids) h =
    let rest = count_open_le s t ids (λ id m. h id (ground (arith, m))) in
    ground (arith, rest, h x (ground (arith, ==-refl x)))

pub count_open_lt :
    (s t : Text → Bool) (x : Text) (ids : List Text)
    → ((id : Text) → member id ids ≡ true → s id ≡ true → t id ≡ true)
    → member x ids ≡ true
    → s x ≡ false
    → t x ≡ true
    → count_open t ids < count_open s ids
unfolding member
count_open_lt s t x [] h m f g = absurd (cc m)
count_open_lt s t x (y ∷ ids) h m f g =
    let later : (id : Text) → member id ids ≡ true → s id ≡ true → t id ≡ true =
      λ id k. h id (ground (arith, k)) in
    let here : s y ≡ true → t y ≡ true = h y (ground (arith, ==-refl y)) in
    elim (Bool-cases (y == x)) [
      | inl same ↦
          let le = count_open_le s t ids later in
          let e : y ≡ x = (text_beq_iff y x).0 same in ground (arith, le, ap s e, ap t e, f, g)
      | inr apart ↦
          let lt = count_open_lt s t x ids later (ground (arith, m, apart)) f g in
          ground (arith, lt, here)
    ]

pub count_open-le-length : (s : Text → Bool) (ids : List Text) → count_open s ids ≤ length ids
count_open-le-length s [] = omega arith
count_open-le-length s (x ∷ ids) = ground (arith, count_open-le-length s ids)
