-- ===== src/Assoc.antt =====
-- Rust's `HashMap` as a list of entries. The iteration order of a `HashMap` is not specified; here
-- it is the order of the list, and the theorems hold for every list. A `HashSet` is a map to `Unit`.
pub mod Laws
use sentinel_command.Prelude.{
  ℕ, ◌+◌, ◌≡◌, Bool, true, false, List, [], ◌∷◌, Option, none, some, length, if◌then◌else◌, not,
  ◌&&◌, ◌||◌,
}
use sentinel_command.Interfaces.{Eq, ◌==◌}

abbrev pub Assoc {ℓ κ} : Type ℓ → Type κ → Type (ℓ ⊔ κ)
Assoc K V = List (K × V)

module _ {ℓ κ} {K : Type ℓ} {V : Type κ} ⦃e : Eq K⦄ where
  unfoldable pub get : K → Assoc K V → Option V
  get k [] = none
  get k ((j, v) ∷ m) = if j == k then some v else get k m

  unfoldable pub insert : K → V → Assoc K V → Assoc K V
  insert k v [] = (k, v) ∷ []
  insert k v ((j, w) ∷ m) = if j == k then (k, v) ∷ m else (j, w) ∷ insert k v m

  unfoldable pub remove : K → Assoc K V → Assoc K V
  remove k [] = []
  remove k ((j, v) ∷ m) = let rest = remove k m in if j == k then rest else (j, v) ∷ rest

  -- `contains_key`.
  unfoldable pub contains : K → Assoc K V → Bool
  contains k [] = false
  contains k ((j, v) ∷ m) = if j == k then true else contains k m

-- `retain` on keys and values.
unfoldable pub retain {ℓ κ} : {K : Type ℓ} {V : Type κ} → (K → V → Bool) → Assoc K V → Assoc K V
retain p [] = []
retain p ((k, v) ∷ m) = let rest = retain p m in if p k v then (k, v) ∷ rest else rest

-- The sum of a measure over the values.
unfoldable pub total {ℓ κ} : {K : Type ℓ} {V : Type κ} → (V → ℕ) → Assoc K V → ℕ
total f [] = 0
total f ((k, v) ∷ m) = f v + total f m

-- The measure of a value that may be missing.
abbrev pub measured {κ} : {V : Type κ} → (V → ℕ) → Option V → ℕ
measured f none = 0
measured f (some v) = f v

abbrev pub keep_if {κ} : {V : Type κ} → (V → Bool) → Option V → Option V
keep_if p none = none
keep_if p (some v) = if p v then some v else none

-- No key stands twice: what a `HashMap` guarantees of its entries.
abbrev pub Distinct {ℓ κ} : {K : Type ℓ} {V : Type κ} ⦃e : Eq K⦄ → Assoc K V → Type κ
Distinct [] = Unit
Distinct ((k, v) ∷ m) = (get k m ≡ none) × Distinct m

-- A predicate of every value.
abbrev pub AllValues {ℓ κ η} : {K : Type ℓ} {V : Type κ} → (V → Type η) → Assoc K V → Type η
AllValues P [] = Unit
AllValues P ((k, v) ∷ m) = P v × AllValues P m

-- The keys in a list, removed in turn.
unfoldable pub remove_all {ℓ κ} :
    {K : Type ℓ} {V : Type κ} ⦃e : Eq K⦄ → List K → Assoc K V → Assoc K V
remove_all [] m = m
remove_all (k ∷ ks) m = remove_all ks (remove k m)

unfoldable pub member {ℓ} : {K : Type ℓ} ⦃e : Eq K⦄ → K → List K → Bool
member k [] = false
member k (j ∷ ks) = j == k || member k ks
