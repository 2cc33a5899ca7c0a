-- ===== src/Ws/Manager/Sockets.antt =====
-- ws.rs, `ConnectionManager`: replaced sockets, cancelled commands, and who may answer.
use sentinel_command.Prelude.{
  ℕ, ◌≤◌, ◌≡◌, sym, ap, ◌∙◌, true, false, not, Option, none, some, suc, arith, Bool-cases,
  Option-cases, inl, inr, ◌⊎◌, ◌↔◌, ◌≢◌, refl,
}
use sentinel_command.Interfaces.{◌==◌, ==-refl}
use sentinel_command.Text.{Text, text_eq, text_beq_iff}
use sentinel_command.Assoc.{Assoc, Distinct, keep_if}
use sentinel_command.Assoc
use sentinel_command.Assoc.Laws as AssocLaws
use sentinel_command.Ws.Manager.{
  ManagerInner, connect, disconnect, cancel_pending, begin_command, forget_pending, resolve_command,
  owns_socket, waits_on, send_command, Sent, Answer, CommandResult, CommandError,
}
use sentinel_command.Ws.Manager.Invariant.{IsValid, IsLive}

get-connect :
    (inner : ManagerInner) (k : Text)
    → Assoc.get k (connect inner k).0.connections ≡ some (suc inner.next_id)
unfolding connect cancel_pending
get-connect inner k = elim (Bool-cases (Assoc.contains k inner.connections)) [
  | inl old ↦
      rw (old, connect)
        (AssocLaws.get-insert k k (suc inner.next_id) inner.connections ∙ rw (==-refl k))
  | inr new ↦
      rw (new, connect)
        (AssocLaws.get-insert k k (suc inner.next_id) inner.connections ∙ rw (==-refl k))
]

disconnect_other :
    (inner : ManagerInner) (k : Text) (id : ℕ)
    → owns_socket (Assoc.get k inner.connections) id ≡ false
    → disconnect inner k id ≡ inner
unfolding disconnect
disconnect_other inner k id h = rw (h, disconnect)

-- Once a node has connected again, a disconnect in the name of any socket that was given out
-- before changes nothing: neither the registry nor the new socket's commands.
pub disconnect-connect_old :
    (inner : ManagerInner) (k : Text) (old : ℕ)
    → old ≤ inner.next_id
    → disconnect (connect inner k).0 k old ≡ (connect inner k).0
disconnect-connect_old inner k old h =
    disconnect_other (connect inner k).0 k old
      (ap (λ (o : Option ℕ). owns_socket o old) (get-connect inner k) ∙ ground arith)

get-cancel_pending :
    (inner : ManagerInner) (k c : Text)
    → Distinct inner.pending
    → Assoc.get c (cancel_pending inner k).pending
      ≡ keep_if (λ node. not (node == k)) (Assoc.get c inner.pending)
unfolding cancel_pending
get-cancel_pending inner k c d = AssocLaws.get-retain (λ _ node. not (node == k)) c inner.pending d

other_than_live :
    (inner : ManagerInner) (k node : Text)
    → Assoc.contains k inner.connections ≡ false
    → IsLive inner.connections node
    → ¬ ((node == k) ≡ true)
other_than_live inner k node new live same =
    let e = (text_beq_iff node k).0 same in
    absurd (cc (ap (λ (n : Text). Assoc.contains n inner.connections) e, new, live))

kept_other :
    (found : Option Text) (k node : Text) {after : Option Text}
    → after ≡ keep_if (λ n. not (n == k)) found
    → (after ≡ some node) ↔ ((found ≡ some node) × (node ≢ k))
kept_other none k node e = ground (arith, e)
kept_other (some n) k node e = ground (arith, e, text_beq_iff n k)

-- A node with no socket has no command in flight.
pending_elsewhere :
    (inner : ManagerInner) (k c : Text) (found : Option Text)
    → IsValid inner
    → Assoc.contains k inner.connections ≡ false
    → Assoc.get c inner.pending ≡ found
    → found ≡ keep_if (λ node. not (node == k)) found
pending_elsewhere inner k c none v new e = refl
pending_elsewhere inner k c (some node) v new e =
    let live =
      AssocLaws.get-AllValues (IsLive inner.connections) c node inner.pending v.pending_live e in
    elim (Bool-cases (node == k)) [
      | inl same ↦ absurd (other_than_live inner k node new live same)
      | inr other ↦ rw (other, keep_if) refl
    ]

get-pending-connect :
    (inner : ManagerInner) (k c : Text)
    → IsValid inner
    → Assoc.get c (connect inner k).0.pending
      ≡ keep_if (λ node. not (node == k)) (Assoc.get c inner.pending)
unfolding connect
get-pending-connect inner k c v = elim (Bool-cases (Assoc.contains k inner.connections)) [
  | inl old ↦
      rw (old, connect)
        (get-cancel_pending
          (record inner {
            connections = Assoc.insert k (suc inner.next_id) inner.connections;
            next_id = suc inner.next_id;
          })
          k c v.pending_distinct)
  | inr new ↦ rw (new, connect) (pending_elsewhere inner k c _ v new refl)
]

-- After a connect, a command is in flight to a node exactly when it was before and the node is not
-- the one that connected: whether or not that node had a socket, it answers no older command, and
-- no command to another node is cancelled.
pub pending-connect :
    (inner : ManagerInner) (k c node : Text)
    → IsValid inner
    → (Assoc.get c (connect inner k).0.pending ≡ some node)
      ↔ ((Assoc.get c inner.pending ≡ some node) × (node ≢ k))
pending-connect inner k c node v =
    kept_other (Assoc.get c inner.pending) k node (get-pending-connect inner k c v)

resolve-waits :
    (inner : ManagerInner) (c k : Text)
    → (resolve_command inner c k).1 ≡ waits_on (Assoc.get c inner.pending) k
unfolding resolve_command
resolve-waits inner c k = ground arith

resolve-taken :
    (inner : ManagerInner) (c k : Text)
    → waits_on (Assoc.get c inner.pending) k ≡ true
    → Assoc.get c (resolve_command inner c k).0.pending ≡ none
unfolding resolve_command
resolve-taken inner c k h =
    rw (h, resolve_command) (AssocLaws.get-remove c c inner.pending ∙ rw (==-refl c))

-- An answer is delivered exactly when a command with that id waits on the very node that
-- answers; then it is taken, so that no second answer to it is delivered by anyone.
pub resolve_command_lem :
    (inner : ManagerInner) (c k : Text)
    → (((resolve_command inner c k).1 ≡ true) ↔ (Assoc.get c inner.pending ≡ some k))
      × ((other : Text)
          → (resolve_command inner c k).1 ≡ true
          → (resolve_command (resolve_command inner c k).0 c other).1 ≡ false)
resolve_command_lem inner c k = (delivered, once)
  where
    delivered : ((resolve_command inner c k).1 ≡ true) ↔ (Assoc.get c inner.pending ≡ some k)
    delivered = elim (Option-cases (Assoc.get c inner.pending)) [
      | inl e ↦ (
        λ h.
            absurd
              (cc (sym (resolve-waits inner c k) ∙ h, ap (λ (o : Option Text). waits_on o k) e)),
        λ h. cc,
      )
      | inr (node, e) ↦ (
        λ h.
            e
            ∙ ap some (
                (text_beq_iff node k).0 (
                  ap (λ (o : Option Text). waits_on o k) (sym e)
                  ∙ sym (resolve-waits inner c k)
                  ∙ h)),
        λ h. resolve-waits inner c k ∙ ap (λ (o : Option Text). waits_on o k) h ∙ ==-refl k,
      )
    ]

    once :
        (other : Text)
        → (resolve_command inner c k).1 ≡ true
        → (resolve_command (resolve_command inner c k).0 c other).1 ≡ false
    once other h =
        resolve-waits (resolve_command inner c k).0 c other
        ∙ ap (λ (o : Option Text). waits_on o other)
            (resolve-taken inner c k (sym (resolve-waits inner c k) ∙ h))

get-remove_self :
    (c : Text) (pending : Assoc Text Text) → Assoc.get c (Assoc.remove c pending) ≡ none
get-remove_self c pending = AssocLaws.get-remove c c pending ∙ rw (==-refl c)

next_id-begin_command :
    (inner : ManagerInner) (k c : Text) → (begin_command inner k c).0.next_id ≡ inner.next_id
unfolding begin_command
next_id-begin_command inner k c = ground arith

module _ {V : Type 0} (inner : ManagerInner) (k command c : Text)
    (during later : ManagerInner → ManagerInner) (answer : Answer V) where
  sent-forgets :
      (sent : Sent) (id : ℕ)
      → Assoc.get k inner.connections ≡ some id
      → Assoc.get c (send_command inner k command c during sent later answer).0.pending ≡ none
  unfolding send_command begin_command forget_pending
  sent-forgets Sent.written id e = rw (e, send_command) (get-remove_self c _)
  sent-forgets Sent.channel_closed id e = rw (e, send_command) (get-remove_self c _)
  sent-forgets Sent.write_timed_out id e = rw (e, send_command) (get-remove_self c _)

  -- A command to a node with no socket fails at once and changes nothing. A command to a node with a
  -- socket leaves no pending entry behind, whatever other tasks do while it waits and however its
  -- waits end.
  pub send_command-forgets :
      (sent : Sent)
      → ((Assoc.get k inner.connections ≡ none)
          × (send_command inner k command c during sent later answer
              ≡ (inner, CommandResult.err (CommandError.not_connected k))))
        ⊎ ((id : ℕ) × (Assoc.get k inner.connections ≡ some id)
            × (Assoc.get c (send_command inner k command c during sent later answer).0.pending
                ≡ none))
  unfolding send_command begin_command
  send_command-forgets sent = elim (Option-cases (Assoc.get k inner.connections)) [
    | inl e ↦ inl (e, rw (e, send_command))
    | inr (id, e) ↦ inr (id, e, sent-forgets sent id e)
  ]

  -- A write that fails after the node has connected again leaves the new socket registered.
  pub send_command-spares :
      (id : ℕ)
      → IsValid inner
      → Assoc.get k inner.connections ≡ some id
      → Assoc.get k
          (send_command inner k command c
            (λ s. (connect s k).0)
            Sent.channel_closed
            later
            answer).0.connections
        ≡ some (suc inner.next_id)
  unfolding send_command forget_pending
  send_command-spares id v e =
      let begun = (begin_command inner k c).0 in
      let same = next_id-begin_command inner k c in
      let bound =
        AssocLaws.get-AllValues (λ i. i ≤ inner.next_id) k id inner.connections v.ids_bounded e in
      rw (e, send_command)
        (ap (λ (m : ManagerInner). Assoc.get k m.connections)
            (disconnect-connect_old begun k id (omega (arith, same, bound)))
          ∙ get-connect begun k
          ∙ ap (λ (n : ℕ). some (suc n)) same)
