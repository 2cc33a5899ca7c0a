-- ===== src/Assoc/Laws.antt =====
-- The laws of the association lists that stand for hash maps.
use sentinel_command.Prelude.{
  ℕ, ◌+◌, ◌≤◌, suc, ◌≡◌, refl, ap, ◌∙◌, Bool, true, false, List, [], ◌∷◌, none, some, length, arith,
  not, ◌||◌, ◌&&◌, if◌then◌else◌, Bool-cases, inl, inr, subst,
}
use sentinel_command.Interfaces.{Eq, ◌==◌}
use sentinel_command.Assoc.{
  Assoc, get, insert, remove, contains, retain, total, measured, keep_if, Distinct, AllValues,
  remove_all, member,
}

module _ {ℓ κ} {K : Type ℓ} {V : Type κ} ⦃e : Eq K⦄ where
  pub get-insert :
      (k j : K) (v : V) (m : Assoc K V)
      → get j (insert k v m) ≡ (if k == j then some v else get j m)
  unfolding get insert
  get-insert k j v [] = refl
  get-insert k j v ((i, w) ∷ m) =
      ground (arith, e.beq_iff k j, e.beq_iff i k, e.beq_iff i j, get-insert k j v m)

  pub get-remove :
      (k j : K) (m : Assoc K V) → get j (remove k m) ≡ (if k == j then none else get j m)
  unfolding get remove
  get-remove k j [] = ground arith
  get-remove k j ((i, w) ∷ m) =
      ground (arith, e.beq_iff k j, e.beq_iff i k, e.beq_iff i j, get-remove k j m)

  pub remove_absent : (k : K) (m : Assoc K V) → get k m ≡ none → remove k m ≡ m
  unfolding get remove
  remove_absent k [] h = refl
  remove_absent k ((i, w) ∷ m) h = ground (arith, remove_absent k m)

  pub get-retain-none :
      (p : K → V → Bool) (k : K) (m : Assoc K V) → get k m ≡ none → get k (retain p m) ≡ none
  unfolding get retain
  get-retain-none p k [] h = refl
  get-retain-none p k ((i, w) ∷ m) h = ground (arith, get-retain-none p k m)

  pub get-retain :
      (p : K → V → Bool) (k : K) (m : Assoc K V)
      → Distinct m
      → get k (retain p m) ≡ keep_if (p k) (get k m)
  unfolding get retain
  get-retain p k [] d = refl
  get-retain p k ((i, w) ∷ m) d =
      ground (arith, get-retain p k m d.1, e.beq_iff i k, get-retain-none p i m d.0)

  pub insert-Distinct : (k : K) (v : V) (m : Assoc K V) → Distinct m → Distinct (insert k v m)
  unfolding get insert
  insert-Distinct k v [] d = (refl, tt)
  insert-Distinct k v ((i, w) ∷ m) d =
      ground (arith, insert-Distinct k v m d.1, get-insert k i v m, e.beq_iff i k, e.beq_iff k i)

  pub remove-Distinct : (k : K) (m : Assoc K V) → Distinct m → Distinct (remove k m)
  unfolding remove
  remove-Distinct k [] d = tt
  remove-Distinct k ((i, w) ∷ m) d = ground (arith, remove-Distinct k m d.1, get-remove k i m)

  pub retain-Distinct : (p : K → V → Bool) (m : Assoc K V) → Distinct m → Distinct (retain p m)
  unfolding retain
  retain-Distinct p [] d = tt
  retain-Distinct p ((i, w) ∷ m) d =
      ground (arith, retain-Distinct p m d.1, get-retain-none p i m d.0)

  pub total-insert :
      (f : V → ℕ) (k : K) (v : V) (m : Assoc K V)
      → total f (insert k v m) + measured f (get k m) ≡ total f m + f v
  unfolding get insert total
  total-insert f k v [] = omega arith
  total-insert f k v ((i, w) ∷ m) = ground (arith, total-insert f k v m)

  pub total-remove :
      (f : V → ℕ) (k : K) (m : Assoc K V)
      → Distinct m
      → total f (remove k m) + measured f (get k m) ≡ total f m
  unfolding get remove total
  total-remove f k [] d = omega arith
  total-remove f k ((i, w) ∷ m) d = ground (
    arith,
    total-remove f k m d.1,
    e.beq_iff i k,
    remove_absent i m d.0,
    ap (λ (x : K). remove x m),
  )

  pub measured-le-total : (f : V → ℕ) (k : K) (m : Assoc K V) → measured f (get k m) ≤ total f m
  unfolding get total
  measured-le-total f k [] = omega arith
  measured-le-total f k ((i, w) ∷ m) = ground (arith, measured-le-total f k m)

  pub length-remove-le : (k : K) (m : Assoc K V) → length (remove k m) ≤ length m
  unfolding remove
  length-remove-le k [] = omega arith
  length-remove-le k ((i, w) ∷ m) = ground (arith, length-remove-le k m)

  pub length-insert-le : (k : K) (v : V) (m : Assoc K V) → length (insert k v m) ≤ suc (length m)
  unfolding insert
  length-insert-le k v [] = omega arith
  length-insert-le k v ((i, w) ∷ m) = ground (arith, length-insert-le k v m)

  pub contains-eq-get :
      (k : K) (m : Assoc K V) → contains k m ≡ (elim (get k m) [ none ↦ false | some v ↦ true ])
  unfolding get contains
  contains-eq-get k [] = refl
  contains-eq-get k ((i, w) ∷ m) = ground (arith, contains-eq-get k m)

module _ {ℓ κ η} {K : Type ℓ} {V : Type κ} ⦃e : Eq K⦄ (P : V → Type η) where
  pub insert-AllValues :
      (k : K) (v : V) (m : Assoc K V) → P v → AllValues P m → AllValues P (insert k v m)
  unfolding insert
  insert-AllValues k v [] p a = (p, tt)
  insert-AllValues k v ((i, w) ∷ m) p a = elim (Bool-cases (i == k)) [
    | inl hit ↦ rw (hit, insert) (p, a.1)
    | inr miss ↦ rw (miss, insert) (a.0, insert-AllValues k v m p a.1)
  ]

  pub remove-AllValues : (k : K) (m : Assoc K V) → AllValues P m → AllValues P (remove k m)
  unfolding remove
  remove-AllValues k [] a = tt
  remove-AllValues k ((i, w) ∷ m) a = elim (Bool-cases (i == k)) [
    | inl hit ↦ rw (hit, remove) (remove-AllValues k m a.1)
    | inr miss ↦ rw (miss, remove) (a.0, remove-AllValues k m a.1)
  ]

  pub get-AllValues : (k : K) (v : V) (m : Assoc K V) → AllValues P m → get k m ≡ some v → P v
  unfolding get
  get-AllValues k v [] a h = absurd (cc)
  get-AllValues k v ((i, w) ∷ m) a h = elim (Bool-cases (i == k)) [
    | inl hit ↦ subst P (cc hit) a.0
    | inr miss ↦ get-AllValues k v m a.1 (ground arith)
  ]

module _ {ℓ κ} {K : Type ℓ} {V : Type κ} ⦃e : Eq K⦄ where
  pub get-remove_all :
      (ks : List K) (j : K) (m : Assoc K V)
      → get j (remove_all ks m) ≡ (if member j ks then none else get j m)
  unfolding remove_all member
  get-remove_all [] j m = refl
  get-remove_all (k ∷ ks) j m = get-remove_all ks j (remove k m) ∙ ground (arith, get-remove k j m)

  pub remove_all-Distinct : (ks : List K) (m : Assoc K V) → Distinct m → Distinct (remove_all ks m)
  unfolding remove_all
  remove_all-Distinct [] m d = d
  remove_all-Distinct (k ∷ ks) m d = remove_all-Distinct ks (remove k m) (remove-Distinct k m d)

  pub remove_all-AllValues {η} :
      (P : V → Type η) (ks : List K) (m : Assoc K V) → AllValues P m → AllValues P (remove_all ks m)
  unfolding remove_all
  remove_all-AllValues P [] m a = a
  remove_all-AllValues P (k ∷ ks) m a =
      remove_all-AllValues P ks (remove k m) (remove-AllValues P k m a)

  pub length-total : (m : Assoc K V) → total (λ _. 1) m ≡ length m
  unfolding total
  length-total [] = refl
  length-total ((k, v) ∷ m) = omega (arith, length-total m)

  pub length-remove :
      (k : K) (v : V) (m : Assoc K V)
      → Distinct m
      → get k m ≡ some v
      → suc (length (remove k m)) ≡ length m
  length-remove k v m d h =
      omega
        (arith, rw h at (total-remove (λ _. 1) k m d), length-total m, length-total (remove k m))

  pub contains-insert :
      (k j : K) (v : V) (m : Assoc K V) → contains j (insert k v m) ≡ (k == j || contains j m)
  contains-insert k j v m =
      ground (arith, contains-eq-get j (insert k v m), contains-eq-get j m, get-insert k j v m)

  pub contains-remove :
      (k j : K) (m : Assoc K V) → contains j (remove k m) ≡ (not (k == j) && contains j m)
  contains-remove k j m =
      ground (arith, contains-eq-get j (remove k m), contains-eq-get j m, get-remove k j m)

module _ {ℓ κ η} {K : Type ℓ} {V : Type κ} (P Q : V → Type η) (p : K → V → Bool) where
  -- What is kept may satisfy more.
  pub retain-AllValues :
      (m : Assoc K V)
      → ((k : K) (v : V) → p k v ≡ true → P v → Q v)
      → AllValues P m
      → AllValues Q (retain p m)
  unfolding retain
  retain-AllValues [] f a = tt
  retain-AllValues ((k, v) ∷ m) f a = elim (Bool-cases (p k v)) [
    | inl kept ↦ rw (kept, retain) (f k v kept a.0, retain-AllValues m f a.1)
    | inr dropped ↦ rw (dropped, retain) (retain-AllValues m f a.1)
  ]

pub AllValues-map {ℓ κ η} :
    {K : Type ℓ} {V : Type κ} (P Q : V → Type η) (m : Assoc K V)
    → ((v : V) → P v → Q v)
    → AllValues P m
    → AllValues Q m
AllValues-map P Q [] f a = tt
AllValues-map P Q ((k, v) ∷ m) f a = (f v a.0, AllValues-map P Q m f a.1)
