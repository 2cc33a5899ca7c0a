-- ===== src/Sse/Fanout.antt =====
-- sse.rs, `notify` and the drop of a subscription: who is told, who loses its place.
use sentinel_command.Prelude.{
  ℕ, ◌≤◌, ◌<◌, ◌≡◌, ◌≢◌, refl, sym, ap, ◌∙◌, Bool, true, false, not, ◌&&◌, List, [], ◌∷◌, ◌++◌,
  Option, none, some, arith, leb, length, nat_beq, Bool-cases, Option-cases, inl, inr, keep, suc,
  All, if◌then◌else◌,
}
use sentinel_command.Interfaces.{◌==◌, ==-refl}
use sentinel_command.Text.{Text, text_eq, text_beq_iff, codes}
use sentinel_command.Assoc.{Assoc}
use sentinel_command.Assoc
use sentinel_command.Assoc.Laws as AssocLaws
use sentinel_command.Sse.{
  Channel, Subscriber, Inner, is_full, subscribe, fan_out, deliver, notify, unsubscribe, or_empty,
  queue_depth,
}
use sentinel_command.Sse.Invariant.{Rising, IsValid, get-Slots, deliver-keeps}

module _ {Tx : Type 0} where
  -- The subscriber with an id.
  abbrev pub find : ℕ → List (Subscriber Tx) → Option (Subscriber Tx)
  find id [] = none
  find id (s ∷ ss) = if nat_beq s.id id then some s else find id ss

  abbrev pub list_of : Text → Inner Tx → List (Subscriber Tx)
  list_of org_id inner = or_empty (Assoc.get org_id inner.subscribers)

  find_above : (id : ℕ) (ss : List (Subscriber Tx)) → All (λ u. id < u.id) ss → find id ss ≡ none
  find_above id [] h = refl
  find_above id (s ∷ ss) h = ground (arith, h, find_above id ss h.1)

  keep_others :
      (id : ℕ) (ss : List (Subscriber Tx))
      → All (λ u. u.id ≤ id) ss
      → (t : Subscriber Tx) → t.id ≡ suc id
      → keep (λ s. not (nat_beq s.id (suc id))) (ss ++ t ∷ []) ≡ ss
  keep_others id [] h t e = ground (arith, e)
  keep_others id (s ∷ ss) h t e = ground (arith, h.0, keep_others id ss h.1 t e)

  pub Rising-All :
      (last : ℕ) (ss : List (Subscriber Tx)) → Rising last ss → All (λ u. u.id ≤ last) ss
  Rising-All last [] r = tt
  Rising-All last (s ∷ ss) r = (r.0, Rising-All last ss r.2)

module _ (c : Channel) where
  open c use {Tx, channel, try_send}

  abbrev and_then :
      Option (Subscriber Tx) → (Subscriber Tx → Option (Subscriber Tx)) → Option (Subscriber Tx)
  and_then none f = none
  and_then (some s) f = f s

  fan_out_above :
      (id : ℕ) (audience payload : Text) (ss : List (Subscriber Tx))
      → All (λ u. id < u.id) ss
      → find id (fan_out c audience payload ss) ≡ none
  unfolding fan_out
  fan_out_above id audience payload [] h = refl
  fan_out_above id audience payload (s ∷ ss) h =
      elim (Option-cases (deliver c audience payload s)) [
        | inl e ↦ rw (e, fan_out) (fan_out_above id audience payload ss h.1)
        | inr (kept, e) ↦
            rw (e, fan_out)
              (let same = (deliver-keeps c audience payload s kept e).0 in
                ground (arith, same, h.0, fan_out_above id audience payload ss h.1))
      ]

  find-fan_out :
      (id last : ℕ) (audience payload : Text) (ss : List (Subscriber Tx))
      → Rising last ss
      → find id (fan_out c audience payload ss) ≡ and_then (find id ss) (deliver c audience payload)
  unfolding fan_out
  find-fan_out id last audience payload [] r = refl
  find-fan_out id last audience payload (s ∷ ss) r =
      let rest = find-fan_out id last audience payload ss r.2 in
      let past = fan_out_above s.id audience payload ss r.1 in
      elim (Bool-cases (nat_beq s.id id)) [
        | inl hit ↦ elim (Option-cases (deliver c audience payload s)) [
          | inl e ↦
              let here : s.id ≡ id = ground (arith, hit) in
              rw (e, fan_out)
                (rw hit
                  (ap (λ i. find i (fan_out c audience payload ss)) (sym here) ∙ past ∙ sym e))
          | inr (kept, e) ↦
              let same : nat_beq kept.id id ≡ true =
                ap (λ i. nat_beq i id) (deliver-keeps c audience payload s kept e).0 ∙ hit in
              rw (e, fan_out) (rw same (rw hit (sym e)))
        ]
        | inr miss ↦ elim (Option-cases (deliver c audience payload s)) [
          | inl e ↦ rw (e, fan_out) (rw miss rest)
          | inr (kept, e) ↦
              let same : nat_beq kept.id id ≡ false =
                ap (λ i. nat_beq i id) (deliver-keeps c audience payload s kept e).0 ∙ miss in
              rw (e, fan_out) (rw same (rw miss rest))
        ]
      ]

  list_of-notify :
      (inner : Inner Tx) (org_id other audience payload : Text)
      → list_of other (notify c inner org_id audience payload) ≡ (
          if org_id == other
          then fan_out c audience payload (list_of org_id inner)
          else list_of other inner)
  unfolding notify fan_out
  list_of-notify inner org_id other audience payload =
      elim (Option-cases (Assoc.get org_id inner.subscribers)) [
        | inl e ↦
            ground (
              arith,
              e,
              text_beq_iff org_id other,
              ap (λ (k : Text). Assoc.get k inner.subscribers),
            )
        | inr (ss, e) ↦
            rw (e, notify)
              (ap or_empty (
                  AssocLaws.get-insert org_id other (fan_out c audience payload ss)
                    inner.subscribers)
                ∙ ground arith)
      ]

  -- What a notification leaves to each subscription of the organisation and to the others.
  pub record Notified (audience payload org_id : Text) (inner out : Inner Tx) : Type 0 where
    pub spares :
        (id : ℕ) (s : Subscriber Tx)
        → find id (list_of org_id inner) ≡ some s
        → audience ≡ codes "admin"
        → s.is_admin ≡ false
        → find id (list_of org_id out) ≡ some s
    pub tells :
        (id : ℕ) (s : Subscriber Tx)
        → find id (list_of org_id inner) ≡ some s
        → (audience == codes "admin" && not s.is_admin) ≡ false
        → is_full (try_send s.tx payload).1 ≡ false
        → find id (list_of org_id out) ≡ some (record s { tx = (try_send s.tx payload).0 })
    pub drops :
        (id : ℕ) (s : Subscriber Tx)
        → find id (list_of org_id inner) ≡ some s
        → (audience == codes "admin" && not s.is_admin) ≡ false
        → is_full (try_send s.tx payload).1 ≡ true
        → find id (list_of org_id out) ≡ none
    pub isolates : (other : Text) → org_id ≢ other → list_of other out ≡ list_of other inner

  find-notify :
      (inner : Inner Tx) (org_id audience payload : Text) (cap id : ℕ) (s : Subscriber Tx)
      → IsValid cap inner
      → find id (list_of org_id inner) ≡ some s
      → find id (list_of org_id (notify c inner org_id audience payload))
        ≡ deliver c audience payload s
  find-notify inner org_id audience payload cap id s v e =
      ap (find id) (list_of-notify inner org_id org_id audience payload ∙ rw (==-refl org_id) refl)
      ∙ find-fan_out id inner.next_id audience payload (list_of org_id inner)
          (get-Slots cap inner org_id v).rising
      ∙ ap (λ o. and_then o (deliver c audience payload)) e

  -- An event reaches the subscribers of its organisation alone, and one for admins no others:
  -- who is not meant keeps its channel as it was, who is meant gets the payload sent, and loses
  -- its place exactly when its queue is full.
  pub notify-Notified :
      (inner : Inner Tx) (org_id audience payload : Text) (cap : ℕ)
      → IsValid cap inner
      → Notified audience payload org_id inner (notify c inner org_id audience payload)
  notify-Notified inner org_id audience payload cap v = record {
    spares = λ id s e a n. find-notify inner org_id audience payload cap id s v e ∙ rw (a, n) refl;
    tells = λ id s e a f. find-notify inner org_id audience payload cap id s v e ∙ rw a (rw f refl);
    drops = λ id s e a f. find-notify inner org_id audience payload cap id s v e ∙ rw a (rw f refl);
    isolates = λ other ne.
        list_of-notify inner org_id other audience payload
        ∙ ground (arith, text_beq_iff org_id other);
  }

  list_of-unsubscribe :
      (inner : Inner Tx) (org_id other : Text) (id : ℕ)
      → list_of other (unsubscribe c inner org_id id) ≡ (
          if org_id == other
          then keep (λ s. not (nat_beq s.id id)) (list_of org_id inner)
          else list_of other inner)
  unfolding unsubscribe
  list_of-unsubscribe inner org_id other id =
      elim (Option-cases (Assoc.get org_id inner.subscribers)) [
        | inl e ↦
            ground (
              arith,
              e,
              text_beq_iff org_id other,
              ap (λ (k : Text). Assoc.get k inner.subscribers),
            )
        | inr (ss, e) ↦
            rw (e, unsubscribe)
              (ap or_empty (
                  AssocLaws.get-insert org_id other (keep (λ s. not (nat_beq s.id id)) ss)
                    inner.subscribers)
                ∙ ground arith)
      ]

  abbrev joined : Inner Tx → Bool → Subscriber Tx
  joined inner is_admin = record {
    id = suc inner.next_id;
    tx = channel queue_depth;
    is_admin = is_admin;
  }

  list_of-subscribe :
      (inner : Inner Tx) (org_id other : Text) (is_admin : Bool) (limit id : ℕ)
      → (subscribe c inner org_id is_admin limit).1 ≡ some id
      → (id ≡ suc inner.next_id)
        × (list_of other (subscribe c inner org_id is_admin limit).0 ≡ (
            if org_id == other
            then list_of org_id inner ++ joined inner is_admin ∷ []
            else list_of other inner))
  unfolding subscribe
  list_of-subscribe inner org_id other is_admin limit id h =
      elim (Bool-cases (leb limit (length (list_of org_id inner)))) [
        | inl over ↦ absurd (cc (rw (over, subscribe) at h))
        | inr room ↦ (
          ground (arith, h),
          rw (room, subscribe)
              (ap or_empty (
                  AssocLaws.get-insert org_id other
                    (list_of org_id inner ++ joined inner is_admin ∷ []) inner.subscribers)
                ∙ ground arith),
        )
      ]

  -- Dropping a subscription gives its slot back: the organisation's list, and every other's, is
  -- what it was before the subscription was taken.
  pub unsubscribe-subscribe :
      (inner : Inner Tx) (org_id other : Text) (is_admin : Bool) (limit cap id : ℕ)
      → IsValid cap inner
      → (subscribe c inner org_id is_admin limit).1 ≡ some id
      → list_of other (unsubscribe c (subscribe c inner org_id is_admin limit).0 org_id id)
        ≡ list_of other inner
  unsubscribe-subscribe inner org_id other is_admin limit cap id v h =
      let taken = (subscribe c inner org_id is_admin limit).0 in
      let joins = list_of-subscribe inner org_id org_id is_admin limit id h in
      let own : list_of org_id taken ≡ list_of org_id inner ++ joined inner is_admin ∷ [] =
        joins.1 ∙ rw (==-refl org_id) refl in
      let back : keep (λ s. not (nat_beq s.id id)) (list_of org_id taken) ≡ list_of org_id inner =
        ap (keep (λ s. not (nat_beq s.id id))) own
        ∙ ap
            (λ i.
              keep (λ s. not (nat_beq s.id i)) (list_of org_id inner ++ joined inner is_admin ∷ []))
            joins.0
        ∙ keep_others inner.next_id (list_of org_id inner)
            (Rising-All inner.next_id (list_of org_id inner) (get-Slots cap inner org_id v).rising)
            (joined inner is_admin) refl in
      elim (Bool-cases (org_id == other)) [
        | inl same ↦
            list_of-unsubscribe taken org_id other id
            ∙ rw same (
                back
                ∙ ap (λ (k : Text). list_of k inner) (ground (arith, text_beq_iff org_id other)))
        | inr apart ↦
            list_of-unsubscribe taken org_id other id
            ∙ rw apart
                ((list_of-subscribe inner org_id other is_admin limit id h).1 ∙ rw apart refl)
      ]
