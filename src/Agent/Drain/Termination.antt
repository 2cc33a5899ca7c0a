-- ===== src/Agent/Drain/Termination.antt =====
-- processor.rs, `process_pending_runs`: a drain over a queue that lists nothing new ends.
use sentinel_command.Prelude.{
  ℕ, zero, suc, ◌≤◌, ◌<◌, ◌≡◌, ◌≢◌, All, refl, sym, ap, subst, ◌∙◌, true, false, not, ◌&&◌, ◌||◌,
  List, [], ◌∷◌, map, Option, none, some, length, leb, arith, Bool-cases, Option-cases, inl, inr,
}
use sentinel_command.Interfaces.{◌==◌, ==-refl}
use sentinel_command.Text.{Text, text_eq, text_beq_iff, is_empty}
use sentinel_command.Assoc.{member}
use sentinel_command.Sets.{member-append}
use sentinel_command.Agent.Drain.{
  Run, run_id_of, DrainOptions, at_least_one, Drain, Summary, start, forget_unlisted, is_settled,
  consider, fill, Listing, pending, on_listing, pick, settle, finish, Round, refill,
  process_pending_runs, returned, await_done,
}
use sentinel_command.Agent.Drain.Invariant.{
  active_ids, active_ids-append, IsValid, start-IsValid, refill-IsValid,
}
use sentinel_command.Agent.Drain.Rounds.{round-cases, next-IsValid, without}
use sentinel_command.Agent.Drain.Picked.{pick-Picked}
use sentinel_command.Agent.Drain.Active.{consider-active, settle-active}
use sentinel_command.Agent.Drain.Attempts.{Lists, refill-settled, settle-settled}
use sentinel_command.Agent.Drain.Counts.{
  count_open, count_open_le, count_open_lt, count_open-le-length,
}

pick-ne-none :
    (n : ℕ) (active : List (Text × Text)) → is_empty active ≡ false → pick n active ≢ none
unfolding pick
pick-ne-none n [] h = absurd (cc h)
pick-ne-none zero (run ∷ runs) h = λ e. cc e
pick-ne-none (suc n) (run ∷ runs) h = ground arith

length_listed : (rest : List Run) → length (map run_id_of rest) ≡ length rest
length_listed [] = refl
length_listed (run ∷ rest) = omega (arith, length_listed rest)

module _ (options : DrainOptions) (runs : List Run) where
  abbrev listed : List Text
  listed = map run_id_of runs

  -- Every active run is one that the queue lists.
  abbrev IsListed : Drain → Type 0
  IsListed d = (id : Text) → member id (active_ids d.active) ≡ true → member id listed ≡ true

  abbrev open_runs : Drain → ℕ
  open_runs d = count_open (λ id. is_settled id d) listed

  -- The queue lists the same runs in each round, and a run ends in each round.
  abbrev pub Settles : Round → Type 0
  Settles r = (r.listing ≡ pending runs) × (r.done ≢ none)

  consider-IsListed :
      (run : Run) (d : Drain)
      → member (run_id_of run) listed ≡ true
      → IsListed d
      → IsListed (consider options run d)
  consider-IsListed run d m l id h = elim (consider-active options run d) [
    | inl same ↦ l id (ap (λ (a : List (Text × Text)). member id (active_ids a)) (sym same) ∙ h)
    | inr (org, more) ↦
        let joined : (member id (active_ids d.active) || run_id_of run == id) ≡ true =
          sym (member-append id (run_id_of run) (active_ids d.active))
          ∙ ap (member id) (sym (active_ids-append d.active (run_id_of run, org)))
          ∙ ap (λ (a : List (Text × Text)). member id (active_ids a)) (sym more)
          ∙ h in
        ground (
          arith,
          joined,
          l id,
          m,
          text_beq_iff (run_id_of run) id,
          ap (λ (t : Text). member t listed),
        )
  ]

  fill-IsListed :
      (rest : List Run) (d : Drain)
      → All (λ run. member (run_id_of run) listed ≡ true) rest
      → IsListed d
      → IsListed (fill options rest d)
  unfolding fill
  fill-IsListed [] d m l = l
  fill-IsListed (run ∷ rest) d m l =
      elim (Bool-cases (leb (at_least_one options.max_concurrent) (length d.active))) [
        | inl full ↦ rw (full, fill) l
        | inr room ↦
            rw (room, fill)
              (fill-IsListed rest (consider options run d) m.1 (consider-IsListed run d m.0 l))
      ]

  every_listed :
      (rest : List Run)
      → ((id : Text) → member id (map run_id_of rest) ≡ true → member id listed ≡ true)
      → All (λ run. member (run_id_of run) listed ≡ true) rest
  unfolding member
  every_listed [] h = tt
  every_listed (run ∷ rest) h = (
    h (run_id_of run) (ground (arith, ==-refl (run_id_of run))),
    every_listed rest (λ id m. h id (ground (arith, m))),
  )

  refill-IsListed :
      (r : Round) (d : Drain)
      → r.listing ≡ pending runs
      → IsListed d
      → IsListed (refill options r d)
  unfolding forget_unlisted
  refill-IsListed r d e l =
      elim (Bool-cases
        (not r.stopping && not (leb (at_least_one options.max_concurrent) (length d.active)))) [
          | inl lists ↦ rw lists (
              subst (λ (q : Listing). IsListed (on_listing options q d)) (sym e)
                (fill-IsListed runs (forget_unlisted listed d) (every_listed runs (λ id m. m)) l))
          | inr waits ↦ rw waits l
        ]

  -- A run that ends leaves fewer open.
  finish-closes :
      (n : ℕ) (outcome : Option Text) (d : Drain)
      → IsValid options d
      → IsListed d
      → is_empty d.active ≡ false
      → (open_runs (finish n outcome d) < open_runs d) × IsListed (finish n outcome d)
  unfolding finish
  finish-closes n outcome d v l busy = elim (Option-cases (pick n d.active)) [
    | inl e ↦ absurd (pick-ne-none n d.active busy e)
    | inr ((chosen, rest), e) ↦
        let p = pick-Picked n d.active chosen rest e in
        let left = without options chosen rest d in
        let own : member chosen.0 (active_ids d.active) ≡ true =
          ground (arith, p.ids chosen.0, ==-refl chosen.0) in
        rw (e, finish)
          (
            count_open_lt (λ id. is_settled id d)
                (λ id. is_settled id (settle chosen.0 outcome left)) chosen.0 listed
                (λ id m h. settle-settled options id chosen.0 outcome left ∙ ground (arith, h))
                (l chosen.0 own) (v.unsettled chosen.0 own)
                (settle-settled options chosen.0 chosen.0 outcome left
                  ∙ ground (arith, ==-refl chosen.0)),
            λ id h. l id (
                ground (
                  arith,
                  p.ids id,
                  sym h
                      ∙ ap (λ (a : List (Text × Text)). member id (active_ids a))
                          (settle-active chosen.0 outcome left),
                )),
          )
  ]

  await_done-closes :
      (done : Option (ℕ × Option Text)) (d : Drain)
      → done ≢ none
      → IsValid options d
      → IsListed d
      → is_empty d.active ≡ false
      → (open_runs (await_done done d) < open_runs d) × IsListed (await_done done d)
  await_done-closes none d s v l busy = absurd (s refl)
  await_done-closes (some (n, outcome)) d s v l busy = finish-closes n outcome d v l busy

  refill-open :
      (r : Round) (d : Drain)
      → r.listing ≡ pending runs
      → open_runs (refill options r d) ≤ open_runs d
  refill-open r d e =
      count_open_le (λ id. is_settled id d) (λ id. is_settled id (refill options r d)) listed
        (λ id m h. refill-settled options id r d (subst (Lists id) (sym e) m) ∙ h)

  rounds_end :
      (rounds : List Round) (d : Drain)
      → IsValid options d
      → IsListed d
      → All Settles rounds
      → open_runs d < length rounds
      → (summary : Summary) × (process_pending_runs options rounds d ≡ returned summary)
  unfolding process_pending_runs
  rounds_end [] d v l s h = absurd (omega arith)
  rounds_end (r ∷ rounds) d v l s h =
      let filled = refill options r d in
      elim (round-cases options r d) [
        | inl ends ↦ (filled.summary, rw (ends, process_pending_runs) refl)
        | inr (busy, goes) ↦
            let closes =
              await_done-closes r.done filled s.0.1 (refill-IsValid options r d v)
                (refill-IsListed r d s.0.0 l) busy in
            let ended =
              rounds_end rounds (await_done r.done filled) (next-IsValid options r d v) closes.1 s.1
                (omega (arith, closes.0, refill-open r d s.0.0)) in
            (ended.0, rw (goes, process_pending_runs) ended.1)
      ]

  -- A drain ends: if the queue keeps listing the same runs and each wait ends with a run, then it
  -- returns after at most one round for each run listed and one more, whatever the runs come to
  -- and in whatever order they end.
  pub process_pending_runs_ends :
      (rounds : List Round)
      → All Settles rounds
      → length runs < length rounds
      → (summary : Summary) × (process_pending_runs options rounds start ≡ returned summary)
  unfolding member
  process_pending_runs_ends rounds s h =
      rounds_end rounds start (start-IsValid options) (λ id m. absurd (cc m)) s
        (omega
          (arith, count_open-le-length (λ id. is_settled id start) listed, length_listed runs, h))
