-- ===== src/Agent/Drain/Picked.antt =====
-- processor.rs: what the run that ends leaves among the active ones.
use sentinel_command.Prelude.{
  ℕ, zero, suc, ◌+◌, ◌≡◌, refl, subst, false, ◌||◌, List, [], ◌∷◌, some, length, arith,
  Option-cases, inl, inr, if◌then◌else◌,
}
use sentinel_command.Interfaces.{◌==◌}
use sentinel_command.Text.{Text, text_eq, text_beq_iff}
use sentinel_command.Assoc.{member}
use sentinel_command.Sets.{Nodup}
use sentinel_command.Agent.Drain.{pick}
use sentinel_command.Agent.Drain.Invariant.{active_ids, count_org}

-- What `pick` takes out.
pub record Picked (active : List (Text × Text)) (chosen : Text × Text) (rest : List (Text × Text))
    : Type 0 where
  pub ids :
      (id : Text) → member id (active_ids active) ≡ (chosen.0 == id || member id (active_ids rest))
  pub orgs :
      (org : Text) → count_org org active ≡ (if chosen.1 == org then 1 else 0) + count_org org rest
  pub size : length active ≡ suc (length rest)
  pub nodup :
      Nodup (active_ids active)
      → Nodup (active_ids rest) × (member chosen.0 (active_ids rest) ≡ false)

Picked-here : (run : Text × Text) (runs : List (Text × Text)) → Picked (run ∷ runs) run runs
unfolding member
Picked-here run runs = record {
  ids = λ id. refl;
  orgs = λ org. refl;
  size = refl;
  nodup = λ n. (n.1, n.0);
}

Picked-there :
    (run c : Text × Text) (runs left : List (Text × Text))
    → Picked runs c left
    → Picked (run ∷ runs) c (run ∷ left)
unfolding member
Picked-there run c runs left p = record {
  ids = λ id. ground (arith, p.ids id);
  orgs = λ org. omega (arith, p.orgs org);
  size = omega (arith, p.size);
  nodup = λ n.
      let below = p.nodup n.1 in
      (
        (ground (arith, p.ids run.0, n.0), below.0),
        ground (arith, p.ids run.0, n.0, below.1, text_beq_iff c.0 run.0, text_beq_iff run.0 c.0),
      );
}

pub pick-Picked :
    (n : ℕ) (active : List (Text × Text)) (chosen : Text × Text) (rest : List (Text × Text))
    → pick n active ≡ some (chosen, rest)
    → Picked active chosen rest
unfolding pick
pick-Picked n [] chosen rest e = absurd (cc e)
pick-Picked zero (run ∷ runs) chosen rest e =
    let same : ◌≡◌ {A = (Text × Text) × List (Text × Text)} (run, runs) (chosen, rest) = cc e in
    subst (λ (p : (Text × Text) × List (Text × Text)). Picked (run ∷ runs) p.0 p.1) same
      (Picked-here run runs)
pick-Picked (suc n) (run ∷ runs) chosen rest e = elim (Option-cases (pick n runs)) [
  | inl gone ↦
      let same : ◌≡◌ {A = (Text × Text) × List (Text × Text)} (run, runs) (chosen, rest) =
        ground (arith, e, gone) in
      subst (λ (p : (Text × Text) × List (Text × Text)). Picked (run ∷ runs) p.0 p.1) same
        (Picked-here run runs)
  | inr ((c, left), found) ↦
      let same : ◌≡◌ {A = (Text × Text) × List (Text × Text)} (c, run ∷ left) (chosen, rest) =
        ground (arith, e, found) in
      subst (λ (p : (Text × Text) × List (Text × Text)). Picked (run ∷ runs) p.0 p.1) same
        (Picked-there run c runs left (pick-Picked n runs c left found))
]
