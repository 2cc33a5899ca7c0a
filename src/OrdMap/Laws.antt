-- ===== src/OrdMap/Laws.antt =====
-- The laws of the sorted lists that stand for B-tree maps.
use sentinel_command.Prelude.{
  ℕ, ◌+◌, ◌≤◌, length, ◌≡◌, refl, List, [], ◌∷◌, none, some, Ordering, arith, drop, zero, suc,
}
use sentinel_command.Interfaces.{Order}
use sentinel_command.Assoc.{measured, total}
use sentinel_command.OrdMap.{get, insert, remove, Above, Sorted}

pub cmp_refl {ℓ} : {K : Type ℓ} (o : Order K) (k : K) → o.cmp k k ≡ Ordering.eq
cmp_refl o k = (o.cmp_eq k k).1 refl

module _ {ℓ κ} {K : Type ℓ} {V : Type κ} (o : Order K) where
  pub Above-trans :
      (j k : K) (m : List (K × V)) → o.cmp j k ≡ Ordering.lt → Above o k m → Above o j m
  Above-trans j k [] h a = tt
  Above-trans j k ((i, w) ∷ m) h a = (o.cmp_trans j k i h a.0, Above-trans j k m h a.1)

  pub get-Above : (k : K) (m : List (K × V)) → Above o k m → get o k m ≡ none
  unfolding get
  get-Above k [] a = refl
  get-Above k ((i, w) ∷ m) a = ground (arith, o.cmp_flip k i)

  pub insert-Above :
      (j k : K) (v : V) (m : List (K × V))
      → o.cmp j k ≡ Ordering.lt
      → Above o j m
      → Above o j (insert o k v m)
  unfolding insert
  insert-Above j k v [] h a = (h, tt)
  insert-Above j k v ((i, w) ∷ m) h a = ground (arith, insert-Above j k v m h a.1)

  pub insert-Sorted : (k : K) (v : V) (m : List (K × V)) → Sorted o m → Sorted o (insert o k v m)
  unfolding insert
  insert-Sorted k v [] s = (tt, tt)
  insert-Sorted k v ((i, w) ∷ m) s =
      ground
        (arith, insert-Sorted k v m s.1, insert-Above i k v m, o.cmp_flip i k, Above-trans k i m)

  pub remove-Above : (j k : K) (m : List (K × V)) → Above o j m → Above o j (remove o k m)
  unfolding remove
  remove-Above j k [] a = tt
  remove-Above j k ((i, w) ∷ m) a = ground (arith, remove-Above j k m a.1)

  pub remove-Sorted : (k : K) (m : List (K × V)) → Sorted o m → Sorted o (remove o k m)
  unfolding remove
  remove-Sorted k [] s = tt
  remove-Sorted k ((i, w) ∷ m) s = ground (arith, remove-Sorted k m s.1, remove-Above i k m s.0)

  pub get-insert_self : (k : K) (v : V) (m : List (K × V)) → get o k (insert o k v m) ≡ some v
  unfolding get insert
  get-insert_self k v [] = ground (arith, cmp_refl o k)
  get-insert_self k v ((i, w) ∷ m) = ground (arith, cmp_refl o k, get-insert_self k v m)

  pub get-insert_ne :
      (k j : K) (v : V) (m : List (K × V))
      → Sorted o m
      → ¬ (k ≡ j)
      → get o j (insert o k v m) ≡ get o j m
  unfolding get insert
  get-insert_ne k j v [] s h = ground (arith, o.cmp_eq k j)
  get-insert_ne k j v ((i, w) ∷ m) s h = ground (
    arith,
    o.cmp_eq k j,
    o.cmp_eq i k,
    o.cmp_eq i j,
    o.cmp_flip i k,
    o.cmp_flip k j,
    o.cmp_trans j k i,
    o.cmp_trans k i j,
    o.cmp_flip i j,
    o.cmp_flip j k,
    get-insert_ne k j v m s.1 h,
  )

  pub get-remove_self : (k : K) (m : List (K × V)) → Sorted o m → get o k (remove o k m) ≡ none
  unfolding get remove
  get-remove_self k [] s = refl
  get-remove_self k ((i, w) ∷ m) s =
      ground (arith, get-remove_self k m s.1, o.cmp_eq i k, get-Above i m s.0, get-Above k m)

  pub get-remove_ne :
      (k j : K) (m : List (K × V)) → Sorted o m → ¬ (k ≡ j) → get o j (remove o k m) ≡ get o j m
  unfolding get remove
  get-remove_ne k j [] s h = refl
  get-remove_ne k j ((i, w) ∷ m) s h = ground (
    arith,
    o.cmp_eq i k,
    o.cmp_eq i j,
    o.cmp_flip i j,
    get-remove_ne k j m s.1 h,
    Above-trans j i m,
    get-Above j m,
  )

  pub total-insert :
      (f : V → ℕ) (k : K) (v : V) (m : List (K × V))
      → total f (insert o k v m) + measured f (get o k m) ≡ total f m + f v
  unfolding get insert total
  total-insert f k v [] = omega arith
  total-insert f k v ((i, w) ∷ m) = ground (arith, total-insert f k v m)

  pub total-remove :
      (f : V → ℕ) (k : K) (m : List (K × V))
      → total f (remove o k m) + measured f (get o k m) ≡ total f m
  unfolding get remove total
  total-remove f k [] = omega arith
  total-remove f k ((i, w) ∷ m) = ground (arith, total-remove f k m)

  pub drop-Sorted : (n : ℕ) (m : List (K × V)) → Sorted o m → Sorted o (drop n m)
  drop-Sorted zero m s = s
  drop-Sorted (suc n) [] s = tt
  drop-Sorted (suc n) (x ∷ m) s = drop-Sorted n m s.1

  -- A key that is found lies above every bound of the keys.
  pub cmp_of_get :
      (k j : K) (v : V) (m : List (K × V))
      → Above o k m
      → get o j m ≡ some v
      → o.cmp k j ≡ Ordering.lt
  unfolding get
  cmp_of_get k j v [] a h = absurd (cc)
  cmp_of_get k j v ((i, w) ∷ m) a h = ground (arith, cmp_of_get k j v m a.1, o.cmp_eq i j)

  pub get-behind :
      (k j : K) (v : V) (m : List (K × V))
      → o.cmp k j ≡ Ordering.lt
      → get o j ((k, v) ∷ m) ≡ get o j m
  unfolding get
  get-behind k j v m h = rw (h, get)

  pub length-remove-le : (k : K) (m : List (K × V)) → length (remove o k m) ≤ length m
  unfolding remove
  length-remove-le k [] = omega arith
  length-remove-le k ((i, w) ∷ m) = ground (arith, length-remove-le k m)
