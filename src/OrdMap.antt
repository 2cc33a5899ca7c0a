-- ===== src/OrdMap.antt =====
-- Rust's `BTreeMap` as a list of entries in the order of its keys: the ends of the list are the
-- least and the greatest key, and `keys()`, `values()` and `iter()` are the list from its head.
pub mod Laws
use sentinel_command.Prelude.{
  ℕ, ◌+◌, ◌≡◌, Bool, true, false, List, [], ◌∷◌, Option, none, some, Ordering,
}
use sentinel_command.Interfaces.{Order}

module _ {ℓ κ} {K : Type ℓ} {V : Type κ} (o : Order K) where
  unfoldable pub get : K → List (K × V) → Option V
  get k [] = none
  get k ((j, v) ∷ m) = elim (o.cmp j k) [
    | Ordering.lt ↦ get k m
    | Ordering.eq ↦ some v
    | Ordering.gt ↦ none
  ]

  unfoldable pub insert : K → V → List (K × V) → List (K × V)
  insert k v [] = (k, v) ∷ []
  insert k v ((j, w) ∷ m) = elim (o.cmp j k) [
    | Ordering.lt ↦ (j, w) ∷ insert k v m
    | Ordering.eq ↦ (j, v) ∷ m
    | Ordering.gt ↦ (k, v) ∷ (j, w) ∷ m
  ]

  unfoldable pub remove : K → List (K × V) → List (K × V)
  remove k [] = []
  remove k ((j, v) ∷ m) = elim (o.cmp j k) [
    | Ordering.lt ↦ (j, v) ∷ remove k m
    | Ordering.eq ↦ m
    | Ordering.gt ↦ (j, v) ∷ m
  ]

  -- Every key lies strictly above a given one.
  abbrev pub Above : K → List (K × V) → Type 0
  Above k [] = Unit
  Above k ((j, v) ∷ m) = (o.cmp k j ≡ Ordering.lt) × Above k m

  -- The keys rise strictly along the list.
  abbrev pub Sorted : List (K × V) → Type 0
  Sorted [] = Unit
  Sorted ((k, v) ∷ m) = Above k m × Sorted m
