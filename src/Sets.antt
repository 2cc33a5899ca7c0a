-- ===== src/Sets.antt =====
-- Lists of texts as sets: what `HashSet<String>` and the ordered lists of ids need.
use sentinel_command.Prelude.{
  ◌≡◌, refl, Bool, false, ◌&&◌, ◌||◌, List, [], ◌∷◌, ◌++◌, keep, arith, ap,
}
use sentinel_command.Interfaces.{◌==◌}
use sentinel_command.Text.{Text, text_eq, text_beq_iff}
use sentinel_command.Assoc.{member}

-- No text stands twice in a list.
abbrev pub Nodup : List Text → Type 0
Nodup [] = Unit {0}
Nodup (x ∷ xs) = (member x xs ≡ false) × Nodup xs

pub member-append :
    (x y : Text) (xs : List Text) → member x (xs ++ y ∷ []) ≡ (member x xs || y == x)
unfolding member
member-append x y [] = ground arith
member-append x y (z ∷ xs) = ground (arith, member-append x y xs)

-- What a filter leaves of a set.
pub member-keep :
    (p : Text → Bool) (x : Text) (xs : List Text) → member x (keep p xs) ≡ (p x && member x xs)
unfolding member
member-keep p x [] = ground arith
member-keep p x (z ∷ xs) = ground (arith, member-keep p x xs, text_beq_iff z x, ap p)

pub push-Nodup : (y : Text) (xs : List Text) → member y xs ≡ false → Nodup xs → Nodup (xs ++ y ∷ [])
unfolding member
push-Nodup y [] m n = (refl, tt)
push-Nodup y (z ∷ xs) m n =
    ground (arith, push-Nodup y xs, n, member-append z y xs, text_beq_iff y z, text_beq_iff z y)

pub keep-Nodup : (p : Text → Bool) (xs : List Text) → Nodup xs → Nodup (keep p xs)
keep-Nodup p [] n = tt
keep-Nodup p (z ∷ xs) n = ground (arith, keep-Nodup p xs n.1, member-keep p z xs)
