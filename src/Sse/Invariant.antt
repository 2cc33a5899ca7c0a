-- ===== src/Sse/Invariant.antt =====
-- sse.rs, `Broadcaster`: what holds in every reachable state.
use sentinel_command.Prelude.{
  ℕ, ◌≤◌, ◌<◌, ◌≡◌, refl, sym, subst, Bool, false, not, List, [], ◌∷◌, ◌++◌, some, length,
  length-append, length-keep-le, arith, leb, nat_beq, Bool-cases, Option-cases, inl, inr, keep, suc,
  All,
}
use sentinel_command.Text.{Text, text_eq}
use sentinel_command.Assoc.{Assoc, AllValues}
use sentinel_command.Assoc
use sentinel_command.Assoc.Laws as AssocLaws
use sentinel_command.Sse.{
  Channel, Subscriber, Inner, subscribe, fan_out, deliver, notify, unsubscribe, or_empty,
}

module _ {Tx : Type 0} where
  -- The ids rise along an organisation's list and none is above the last one given out.
  abbrev pub Rising : ℕ → List (Subscriber Tx) → Type 0
  Rising last [] = Unit
  Rising last (s ∷ ss) = (s.id ≤ last) × All (λ t. s.id < t.id) ss × Rising last ss

  pub Rising-mono : (a b : ℕ) (ss : List (Subscriber Tx)) → a ≤ b → Rising a ss → Rising b ss
  Rising-mono a b [] h r = tt
  Rising-mono a b (s ∷ ss) h r = (omega (arith, r.0), r.1, Rising-mono a b ss h r.2)

  above :
      (a : ℕ) (t : Subscriber Tx) (ss : List (Subscriber Tx))
      → All (λ u. a < u.id) ss
      → a < t.id
      → All (λ u. a < u.id) (ss ++ t ∷ [])
  above a t [] h k = (k, tt)
  above a t (s ∷ ss) h k = (h.0, above a t ss h.1 k)

  pub Rising-push :
      (last : ℕ) (t : Subscriber Tx) (ss : List (Subscriber Tx))
      → Rising last ss
      → t.id ≡ suc last
      → Rising (suc last) (ss ++ t ∷ [])
  Rising-push last t [] r e = (omega arith, tt, tt)
  Rising-push last t (s ∷ ss) r e =
      (omega (arith, r.0), above s.id t ss r.1 (omega (arith, r.0)), Rising-push last t ss r.2 e)

  keep-All :
      (a : ℕ) (p : Subscriber Tx → Bool) (ss : List (Subscriber Tx))
      → All (λ u. a < u.id) ss
      → All (λ u. a < u.id) (keep p ss)
  keep-All a p [] h = tt
  keep-All a p (s ∷ ss) h = ground (arith, h, keep-All a p ss)

  pub keep-Rising :
      (last : ℕ) (p : Subscriber Tx → Bool) (ss : List (Subscriber Tx))
      → Rising last ss
      → Rising last (keep p ss)
  keep-Rising last p [] r = tt
  keep-Rising last p (s ∷ ss) r = ground (arith, r, keep-All s.id p ss, keep-Rising last p ss)

  -- A list within the cap.
  pub record Slots (cap last : ℕ) (ss : List (Subscriber Tx)) : Type 0 where
    pub rising : Rising last ss
    pub capped : length ss ≤ cap

  abbrev pub IsValid : ℕ → Inner Tx → Type 0
  IsValid cap inner = AllValues (Slots cap inner.next_id) inner.subscribers

  pub get-Slots :
      (cap : ℕ) (inner : Inner Tx) (org_id : Text)
      → IsValid cap inner
      → Slots cap inner.next_id (or_empty (Assoc.get org_id inner.subscribers))
  get-Slots cap inner org_id v = elim (Option-cases (Assoc.get org_id inner.subscribers)) [
    | inl e ↦ rw e (record { rising = tt; capped = omega arith })
    | inr (ss, e) ↦
        rw e (AssocLaws.get-AllValues (Slots cap inner.next_id) org_id ss inner.subscribers v e)
  ]

module _ (c : Channel) where
  open c use {Tx, channel, try_send}

  -- What becomes of a subscriber in a fan-out keeps its id and its audience.
  pub deliver-keeps :
      (audience payload : Text) (s kept : Subscriber Tx)
      → deliver c audience payload s ≡ some kept
      → (kept.id ≡ s.id) × (kept.is_admin ≡ s.is_admin)
  deliver-keeps audience payload s kept h = ground arith

  fan_out-All :
      (a : ℕ) (audience payload : Text) (ss : List (Subscriber Tx))
      → All (λ u. a < u.id) ss
      → All (λ u. a < u.id) (fan_out c audience payload ss)
  unfolding fan_out
  fan_out-All a audience payload [] h = tt
  fan_out-All a audience payload (s ∷ ss) h = elim (Option-cases (deliver c audience payload s)) [
    | inl e ↦ rw (e, fan_out) (fan_out-All a audience payload ss h.1)
    | inr (kept, e) ↦
        rw (e, fan_out)
          (
            subst (λ i. a < i) (sym (deliver-keeps audience payload s kept e).0) h.0,
            fan_out-All a audience payload ss h.1,
          )
  ]

  fan_out-Rising :
      (last : ℕ) (audience payload : Text) (ss : List (Subscriber Tx))
      → Rising last ss
      → Rising last (fan_out c audience payload ss)
  unfolding fan_out
  fan_out-Rising last audience payload [] r = tt
  fan_out-Rising last audience payload (s ∷ ss) r =
      elim (Option-cases (deliver c audience payload s)) [
        | inl e ↦ rw (e, fan_out) (fan_out-Rising last audience payload ss r.2)
        | inr (kept, e) ↦
            rw (e, fan_out)
              (let same = (deliver-keeps audience payload s kept e).0 in
                (
                  omega (arith, same, r.0),
                  subst (λ i. All (λ t. i < t.id) (fan_out c audience payload ss)) (sym same)
                      (fan_out-All s.id audience payload ss r.1),
                  fan_out-Rising last audience payload ss r.2,
                ))
      ]

  length-fan_out-le :
      (audience payload : Text) (ss : List (Subscriber Tx))
      → length (fan_out c audience payload ss) ≤ length ss
  unfolding fan_out
  length-fan_out-le audience payload [] = omega arith
  length-fan_out-le audience payload (s ∷ ss) = elim (Option-cases (deliver c audience payload s)) [
    | inl e ↦ rw (e, fan_out) (omega (arith, length-fan_out-le audience payload ss))
    | inr (kept, e) ↦ rw (e, fan_out) (omega (arith, length-fan_out-le audience payload ss))
  ]

  fan_out-Slots :
      (cap last : ℕ) (audience payload : Text) (ss : List (Subscriber Tx))
      → Slots cap last ss
      → Slots cap last (fan_out c audience payload ss)
  fan_out-Slots cap last audience payload ss v = record {
    rising = fan_out-Rising last audience payload ss v.rising;
    capped = omega (arith, length-fan_out-le audience payload ss, v.capped);
  }

  pub subscribe-IsValid :
      (inner : Inner Tx) (org_id : Text) (is_admin : Bool) (limit cap : ℕ)
      → limit ≤ cap
      → IsValid cap inner
      → IsValid cap (subscribe c inner org_id is_admin limit).0
  unfolding subscribe
  subscribe-IsValid inner org_id is_admin limit cap l v =
      let existing = or_empty (Assoc.get org_id inner.subscribers) in
      let slots = get-Slots cap inner org_id v in
      let below : leb limit (length existing) ≡ false → length existing < limit = ground arith in
      elim (Bool-cases (leb limit (length existing))) [
        | inl over ↦
            rw (over, subscribe)
              (AssocLaws.insert-AllValues (Slots cap inner.next_id) org_id existing
                inner.subscribers slots v)
        | inr room ↦
            rw (room, subscribe)
              (AssocLaws.insert-AllValues (Slots cap (suc inner.next_id)) org_id _ inner.subscribers
                (record {
                  rising = Rising-push inner.next_id _ existing slots.rising refl;
                  capped = omega (arith, length-append existing (_ ∷ []), below room, l);
                })
                (AssocLaws.AllValues-map (Slots cap inner.next_id) (Slots cap (suc inner.next_id))
                  inner.subscribers
                  (λ ss w. record {
                    rising =
                        Rising-mono inner.next_id (suc inner.next_id) ss (omega arith) w.rising;
                    capped = w.capped;
                  })
                  v))
      ]

  pub notify-IsValid :
      (inner : Inner Tx) (org_id audience payload : Text) (cap : ℕ)
      → IsValid cap inner
      → IsValid cap (notify c inner org_id audience payload)
  unfolding notify
  notify-IsValid inner org_id audience payload cap v =
      elim (Option-cases (Assoc.get org_id inner.subscribers)) [
        | inl e ↦ rw (e, notify) v
        | inr (ss, e) ↦
            rw (e, notify)
              (AssocLaws.insert-AllValues (Slots cap inner.next_id) org_id _ inner.subscribers
                (fan_out-Slots cap inner.next_id audience payload ss (
                  AssocLaws.get-AllValues (Slots cap inner.next_id) org_id ss inner.subscribers v
                    e))
                v)
      ]

  pub unsubscribe-IsValid :
      (inner : Inner Tx) (org_id : Text) (id cap : ℕ)
      → IsValid cap inner
      → IsValid cap (unsubscribe c inner org_id id)
  unfolding unsubscribe
  unsubscribe-IsValid inner org_id id cap v =
      elim (Option-cases (Assoc.get org_id inner.subscribers)) [
        | inl e ↦ rw (e, unsubscribe) v
        | inr (ss, e) ↦
            rw (e, unsubscribe)
              (let slots =
                  AssocLaws.get-AllValues (Slots cap inner.next_id) org_id ss inner.subscribers v
                    e in
                AssocLaws.insert-AllValues (Slots cap inner.next_id) org_id _ inner.subscribers
                  (record {
                    rising = keep-Rising inner.next_id (λ s. not (nat_beq s.id id)) ss slots.rising;
                    capped =
                        omega (arith, slots.capped, length-keep-le (λ s. not (nat_beq s.id id)) ss);
                  })
                  v)
      ]
