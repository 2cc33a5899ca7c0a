-- ===== src/Mail/Laws.antt =====
-- email_worker.rs: what each query of the worker does to the row of an id.
use sentinel_command.Prelude.{
  ℕ, zero, suc, ◌≤◌, ◌≡◌, refl, ap, ◌∙◌, Bool, true, false, List, [], ◌∷◌, Option, none, some,
  length, take, arith, Bool-cases, Option-cases, inl, inr, if◌then◌else◌,
}
use sentinel_command.Interfaces.{Eq, ◌==◌, nat_eq}
use sentinel_command.Assoc.{Assoc, Distinct, retain, keep_if}
use sentinel_command.Assoc
use sentinel_command.Assoc.Laws as AssocLaws
use sentinel_command.Mail.{OutboxRow, Outbox, reclaim_row, reclaim, update, mark_row, mark_sending}

abbrev pub mapped {ℓ} : {A : Type ℓ} → (A → A) → Option A → Option A
mapped f none = none
mapped f (some a) = some (f a)

module _ {ℓ κ} {K : Type ℓ} {V : Type κ} ⦃e : Eq K⦄ where
  pub get-take :
      (n : ℕ) (k : K) (v : V) (m : Assoc K V)
      → Assoc.get k (take n m) ≡ some v
      → Assoc.get k m ≡ some v
  unfolding Assoc.get
  get-take zero k v m h = absurd (cc h)
  get-take (suc n) k v [] h = h
  get-take (suc n) k v ((j, w) ∷ m) h = ground (arith, h, get-take n k v m)

  pub get-take-none :
      (n : ℕ) (k : K) (m : Assoc K V) → Assoc.get k m ≡ none → Assoc.get k (take n m) ≡ none
  unfolding Assoc.get
  get-take-none zero k m h = refl
  get-take-none (suc n) k [] h = refl
  get-take-none (suc n) k ((j, w) ∷ m) h = ground (arith, h, get-take-none n k m)

  pub take-Distinct : (n : ℕ) (m : Assoc K V) → Distinct m → Distinct (take n m)
  take-Distinct zero m d = tt
  take-Distinct (suc n) [] d = tt
  take-Distinct (suc n) ((j, w) ∷ m) d = (get-take-none n j m d.0, take-Distinct n m d.1)

pub take_all {ℓ} : {A : Type ℓ} (n : ℕ) (xs : List A) → length xs ≤ n → take n xs ≡ xs
take_all zero [] h = refl
take_all zero (x ∷ xs) h = absurd (omega arith)
take_all (suc n) [] h = refl
take_all (suc n) (x ∷ xs) h = rw (take_all n xs (omega arith)) refl

pub length-retain-le {ℓ κ} :
    {K : Type ℓ} {V : Type κ} (p : K → V → Bool) (m : Assoc K V) → length (retain p m) ≤ length m
unfolding retain
length-retain-le p [] = omega arith
length-retain-le p ((k, v) ∷ m) = ground (arith, length-retain-le p m)

pub get-update :
    (id j : ℕ) (f : OutboxRow → OutboxRow) (rows : Outbox)
    → Assoc.get j (update id f rows)
      ≡ (if id == j then mapped f (Assoc.get j rows) else Assoc.get j rows)
unfolding update
get-update id j f rows = elim (Option-cases (Assoc.get id rows)) [
  | inl e ↦ rw (e, update) (ground (arith, e, ap (λ (k : ℕ). Assoc.get k rows)))
  | inr (row, e) ↦
      rw (e, update)
        (AssocLaws.get-insert id j (f row) rows
          ∙ ground (arith, e, ap (λ (k : ℕ). Assoc.get k rows)))
]

pub update-Distinct :
    (id : ℕ) (f : OutboxRow → OutboxRow) (rows : Outbox)
    → Distinct rows
    → Distinct (update id f rows)
unfolding update
update-Distinct id f rows d = elim (Option-cases (Assoc.get id rows)) [
  | inl e ↦ rw (e, update) d
  | inr (row, e) ↦ rw (e, update) (AssocLaws.insert-Distinct id (f row) rows d)
]

length-insert_present :
    (id : ℕ) (old row : OutboxRow) (rows : Outbox)
    → Assoc.get id rows ≡ some old
    → length (Assoc.insert id row rows) ≡ length rows
unfolding Assoc.get Assoc.insert
length-insert_present id old row [] h = absurd (cc h)
length-insert_present id old row ((j, w) ∷ rows) h =
    ground (arith, h, length-insert_present id old row rows)

pub length-update :
    (id : ℕ) (f : OutboxRow → OutboxRow) (rows : Outbox) → length (update id f rows) ≡ length rows
unfolding update
length-update id f rows = elim (Option-cases (Assoc.get id rows)) [
  | inl e ↦ rw (e, update) refl
  | inr (row, e) ↦ rw (e, update) (length-insert_present id row (f row) rows e)
]

pub get-reclaim :
    (now id : ℕ) (rows : Outbox)
    → Assoc.get id (reclaim now rows) ≡ mapped (reclaim_row now) (Assoc.get id rows)
unfolding reclaim Assoc.get
get-reclaim now id [] = refl
get-reclaim now id ((j, row) ∷ rows) = elim (Bool-cases (j == id)) [
  | inl hit ↦ rw hit refl
  | inr miss ↦ rw miss (get-reclaim now id rows)
]

pub reclaim-Distinct : (now : ℕ) (rows : Outbox) → Distinct rows → Distinct (reclaim now rows)
unfolding reclaim
reclaim-Distinct now [] d = tt
reclaim-Distinct now ((j, row) ∷ rows) d =
    (get-reclaim now j rows ∙ ap (mapped (reclaim_row now)) d.0, reclaim-Distinct now rows d.1)

pub length-reclaim : (now : ℕ) (rows : Outbox) → length (reclaim now rows) ≡ length rows
unfolding reclaim
length-reclaim now [] = refl
length-reclaim now ((j, row) ∷ rows) = omega (arith, length-reclaim now rows)

pub get-mark_sending :
    (now id : ℕ) (chosen rows : Outbox)
    → Assoc.get id (mark_sending now chosen rows) ≡ (
        if Assoc.contains id chosen
        then mapped (mark_row now) (Assoc.get id rows)
        else Assoc.get id rows)
unfolding mark_sending Assoc.contains
get-mark_sending now id [] rows = refl
get-mark_sending now id ((j, row) ∷ chosen) rows =
    get-mark_sending now id chosen (update j (mark_row now) rows)
    ∙ ap (λ o. if Assoc.contains id chosen then mapped (mark_row now) o else o)
        (get-update j id (mark_row now) rows)
    ∙ again (j == id) (Assoc.contains id chosen) (Assoc.get id rows)
  where
    again :
        (a b : Bool) (o : Option OutboxRow)
        → (if b
            then mapped (mark_row now) (if a then mapped (mark_row now) o else o)
            else (if a then mapped (mark_row now) o else o))
          ≡ (if (if a then true else b) then mapped (mark_row now) o else o)
    again true true none = refl
    again true true (some r) = refl
    again true false o = refl
    again false true o = refl
    again false false o = refl
