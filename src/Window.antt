-- ===== src/Window.antt =====
-- Queues of instants, oldest first: what the sliding-window limiters keep for each key.
use sentinel_command.Prelude.{
  ℕ, ◌+◌, ◌≤◌, ◌≡◌, refl, Bool, true, false, List, [], ◌∷◌, ◌++◌, Option, none, some, length, arith,
  if◌then◌else◌, All,
}

-- `while front().is_some_and(test) { pop_front(); }`.
unfoldable pub pop_aged : (ℕ → Bool) → List ℕ → List ℕ
pop_aged test [] = []
pop_aged test (at ∷ window) = elim (test at) [ true ↦ pop_aged test window | false ↦ at ∷ window ]

-- `back()`.
unfoldable pub back : List ℕ → Option ℕ
back [] = none
back (at ∷ window) = elim (back window) [ none ↦ some at | some last ↦ some last ]

abbrev pub or_nil : Option (List ℕ) → List ℕ
or_nil none = []
or_nil (some window) = window

-- How many instants pass a test.
unfoldable pub count : (ℕ → Bool) → List ℕ → ℕ
count live [] = 0
count live (at ∷ window) = (if live at then 1 else 0) + count live window

pub count-le-length : (live : ℕ → Bool) (window : List ℕ) → count live window ≤ length window
unfolding count
count-le-length live [] = omega arith
count-le-length live (at ∷ window) = ground (arith, count-le-length live window)

pub count-append :
    (live : ℕ → Bool) (xs ys : List ℕ) → count live (xs ++ ys) ≡ count live xs + count live ys
unfolding count
count-append live [] ys = omega arith
count-append live (x ∷ xs) ys = omega (arith, count-append live xs ys)

-- Popping what is not live any more loses no live instant.
pub count-pop_aged :
    (live test : ℕ → Bool) (window : List ℕ)
    → ((at : ℕ) → test at ≡ true → live at ≡ false)
    → count live (pop_aged test window) ≡ count live window
unfolding count pop_aged
count-pop_aged live test [] h = refl
count-pop_aged live test (at ∷ window) h = ground (arith, h at, count-pop_aged live test window h)

pub length-pop_aged-le :
    (test : ℕ → Bool) (window : List ℕ) → length (pop_aged test window) ≤ length window
unfolding pop_aged
length-pop_aged-le test [] = omega arith
length-pop_aged-le test (at ∷ window) = ground (arith, length-pop_aged-le test window)

-- A test that implies another counts no more.
pub count_mono :
    (p q : ℕ → Bool) (window : List ℕ)
    → ((at : ℕ) → p at ≡ true → q at ≡ true)
    → count p window ≤ count q window
unfolding count
count_mono p q [] h = omega arith
count_mono p q (at ∷ window) h = ground (arith, h at, count_mono p q window h)

-- The instants rise along the queue.
abbrev pub Ascending : List ℕ → Type 0
Ascending [] = Unit
Ascending (at ∷ window) = All (λ later. at ≤ later) window × Ascending window

pub All-pop_aged {ℓ} :
    (P : ℕ → Type ℓ) (test : ℕ → Bool) (window : List ℕ)
    → All P window
    → All P (pop_aged test window)
unfolding pop_aged
All-pop_aged P test [] a = tt
All-pop_aged P test (at ∷ window) a =
    elim (test at) as (λ b. All P (elim b [ true ↦ pop_aged test window | false ↦ at ∷ window ])) [
      | true ↦ All-pop_aged P test window a.1
      | false ↦ a
    ]

pub pop_aged-Ascending :
    (test : ℕ → Bool) (window : List ℕ) → Ascending window → Ascending (pop_aged test window)
unfolding pop_aged
pop_aged-Ascending test [] a = tt
pop_aged-Ascending test (at ∷ window) a = ground (arith, pop_aged-Ascending test window a.1)

pub All-push :
    (b now : ℕ) (window : List ℕ)
    → All (λ at. b ≤ at) window
    → b ≤ now
    → All (λ at. b ≤ at) (window ++ now ∷ [])
All-push b now [] a h = (h, tt)
All-push b now (at ∷ window) a h = (a.0, All-push b now window a.1 h)

pub push-Ascending :
    (now : ℕ) (window : List ℕ)
    → Ascending window
    → All (λ at. at ≤ now) window
    → Ascending (window ++ now ∷ [])
push-Ascending now [] a h = (tt, tt)
push-Ascending now (at ∷ window) a h =
    (All-push at now window a.0 h.0, push-Ascending now window a.1 h.1)

pub All-le-push :
    (now : ℕ) (window : List ℕ)
    → All (λ at. at ≤ now) window
    → All (λ at. at ≤ now) (window ++ now ∷ [])
All-le-push now [] h = (omega arith, tt)
All-le-push now (at ∷ window) h = (h.0, All-le-push now window h.1)

pub All-le_mono :
    (a b : ℕ) (window : List ℕ) → a ≤ b → All (λ at. at ≤ a) window → All (λ at. at ≤ b) window
All-le_mono a b [] h l = tt
All-le_mono a b (at ∷ window) h l = (omega arith, All-le_mono a b window h l.1)

-- Nothing in the queue is younger than its back.
pub All-le-back :
    (last : ℕ) (window : List ℕ)
    → Ascending window
    → back window ≡ some last
    → All (λ at. at ≤ last) window
unfolding back
All-le-back last [] a h = tt
All-le-back last (at ∷ []) a h = ground arith
All-le-back last (at ∷ next ∷ window) a h =
    let rest = All-le-back last (next ∷ window) a.1 (ground arith) in (omega arith, rest)

pub count_zero :
    (live : ℕ → Bool) (last : ℕ) (window : List ℕ)
    → ((at : ℕ) → at ≤ last → live at ≡ false)
    → All (λ at. at ≤ last) window
    → count live window ≡ 0
unfolding count
count_zero live last [] h a = refl
count_zero live last (at ∷ window) h a = ground (arith, h at, count_zero live last window h a.1)
