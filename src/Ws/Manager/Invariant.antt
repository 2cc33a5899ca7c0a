-- ===== src/Ws/Manager/Invariant.antt =====
-- ws.rs, `ConnectionManager`: what holds in every reachable state.
use sentinel_command.Prelude.{
  ℕ, ◌≤◌, ◌≡◌, refl, sym, ap, ◌∙◌, true, not, List, [], ◌∷◌, suc, arith, Bool-cases, Option-cases,
  inl, inr,
}
use sentinel_command.Interfaces.{◌==◌}
use sentinel_command.Text.{Text, text_eq, text_beq_iff}
use sentinel_command.Assoc.{Assoc, Distinct, AllValues, member}
use sentinel_command.Assoc
use sentinel_command.Assoc.Laws as AssocLaws
use sentinel_command.Sets.{Nodup, member-append, member-keep, push-Nodup, keep-Nodup}
use sentinel_command.Ws.Manager.{
  ManagerInner, start, connect, disconnect, begin_command, forget_pending, resolve_command,
  owns_socket, waits_on,
}

abbrev pub IsLive : Assoc Text ℕ → Text → Type 0
IsLive connections node_id = Assoc.contains node_id connections ≡ true

pub record IsValid (inner : ManagerInner) : Type 0 where
  pub connections_distinct : Distinct inner.connections
  pub pending_distinct : Distinct inner.pending
  pub order_nodup : Nodup inner.order
  pub order_exact :
      (node_id : Text) → member node_id inner.order ≡ Assoc.contains node_id inner.connections
  pub ids_bounded : AllValues (λ id. id ≤ inner.next_id) inner.connections
  pub pending_live : AllValues (IsLive inner.connections) inner.pending

-- The critical sections that change the manager.
pub data Op : Type 0 where
  connects : Text → Op
  disconnects : Text → ℕ → Op
  begins : Text → Text → Op
  forgets : Text → Op
  resolves : Text → Text → Op

unfoldable pub step : Op → ManagerInner → ManagerInner
step (connects node_id) inner = (connect inner node_id).0
step (disconnects node_id id) inner = disconnect inner node_id id
step (begins node_id correlation_id) inner = (begin_command inner node_id correlation_id).0
step (forgets correlation_id) inner = forget_pending inner correlation_id
step (resolves correlation_id node_id) inner = (resolve_command inner correlation_id node_id).0

unfoldable pub run : List Op → ManagerInner
run [] = start
run (op ∷ ops) = step op (run ops)

IsLive-insert :
    (connections : Assoc Text ℕ) (k : Text) (id : ℕ) (node : Text)
    → IsLive connections node
    → IsLive (Assoc.insert k id connections) node
IsLive-insert connections k id node h =
    AssocLaws.contains-insert k node id connections ∙ ground arith

order-insert :
    (connections : Assoc Text ℕ) (k : Text) (id : ℕ) (node : Text)
    → Assoc.contains k connections ≡ true
    → Assoc.contains node (Assoc.insert k id connections) ≡ Assoc.contains node connections
order-insert connections k id node h = ground (
  arith,
  AssocLaws.contains-insert k node id connections,
  text_beq_iff k node,
  ap (λ (t : Text). Assoc.contains t connections),
)

connect-IsValid : (inner : ManagerInner) (k : Text) → IsValid inner → IsValid (connect inner k).0
unfolding connect
connect-IsValid inner k v =
    let id = suc inner.next_id in
    let bounded =
      AssocLaws.insert-AllValues (λ i. i ≤ id) k id inner.connections (omega arith)
        (AssocLaws.AllValues-map (λ i. i ≤ inner.next_id) (λ i. i ≤ id) inner.connections
          (λ i h. omega arith) v.ids_bounded) in
    let distinct = AssocLaws.insert-Distinct k id inner.connections v.connections_distinct in
    elim (Bool-cases (Assoc.contains k inner.connections)) [
      | inl old ↦
          rw (old, connect)
            (record {
              connections_distinct = distinct;
              pending_distinct = AssocLaws.retain-Distinct _ inner.pending v.pending_distinct;
              order_nodup = v.order_nodup;
              order_exact = λ n. v.order_exact n ∙ sym (order-insert inner.connections k id n old);
              ids_bounded = bounded;
              pending_live =
                  AssocLaws.retain-AllValues (IsLive inner.connections)
                    (IsLive (Assoc.insert k id inner.connections)) _ inner.pending
                    (λ c n _ h. IsLive-insert inner.connections k id n h) v.pending_live;
            })
      | inr new ↦
          rw (new, connect)
            (record {
              connections_distinct = distinct;
              pending_distinct = v.pending_distinct;
              order_nodup = push-Nodup k inner.order (v.order_exact k ∙ new) v.order_nodup;
              order_exact = λ n. ground (
                arith,
                member-append n k inner.order,
                v.order_exact n,
                AssocLaws.contains-insert k n id inner.connections,
              );
              ids_bounded = bounded;
              pending_live =
                  AssocLaws.AllValues-map (IsLive inner.connections)
                    (IsLive (Assoc.insert k id inner.connections)) inner.pending
                    (λ n h. IsLive-insert inner.connections k id n h) v.pending_live;
            })
    ]

disconnect-IsValid :
    (inner : ManagerInner) (k : Text) (id : ℕ) → IsValid inner → IsValid (disconnect inner k id)
unfolding disconnect
disconnect-IsValid inner k id v =
    elim (Bool-cases (owns_socket (Assoc.get k inner.connections) id)) [
      | inr other ↦ rw (other, disconnect) v
      | inl owns ↦
          rw (owns, disconnect)
            (record {
              connections_distinct =
                  AssocLaws.remove-Distinct k inner.connections v.connections_distinct;
              pending_distinct = AssocLaws.retain-Distinct _ inner.pending v.pending_distinct;
              order_nodup = keep-Nodup (λ y. not (y == k)) inner.order v.order_nodup;
              order_exact = λ n. ground (
                arith,
                member-keep (λ y. not (y == k)) n inner.order,
                text_beq_iff n k,
                text_beq_iff k n,
                v.order_exact n,
                AssocLaws.contains-remove k n inner.connections,
              );
              ids_bounded =
                  AssocLaws.remove-AllValues (λ i. i ≤ inner.next_id) k inner.connections
                    v.ids_bounded;
              pending_live =
                  AssocLaws.retain-AllValues (IsLive inner.connections)
                    (IsLive (Assoc.remove k inner.connections)) _ inner.pending
                    (λ c n kept h. ground (
                      arith,
                      AssocLaws.contains-remove k n inner.connections,
                      text_beq_iff k n,
                      text_beq_iff n k,
                    ))
                    v.pending_live;
            })
    ]

remove_pending-IsValid :
    (inner : ManagerInner) (c : Text)
    → IsValid inner
    → IsValid (record inner { pending = Assoc.remove c inner.pending })
remove_pending-IsValid inner c v = record {
  connections_distinct = v.connections_distinct;
  pending_distinct = AssocLaws.remove-Distinct c inner.pending v.pending_distinct;
  order_nodup = v.order_nodup;
  order_exact = v.order_exact;
  ids_bounded = v.ids_bounded;
  pending_live =
      AssocLaws.remove-AllValues (IsLive inner.connections) c inner.pending v.pending_live;
}

begin_command-IsValid :
    (inner : ManagerInner) (k c : Text) → IsValid inner → IsValid (begin_command inner k c).0
unfolding begin_command
begin_command-IsValid inner k c v = elim (Option-cases (Assoc.get k inner.connections)) [
  | inl e ↦ rw (e, begin_command) v
  | inr (id, e) ↦
      rw (e, begin_command)
        (record {
          connections_distinct = v.connections_distinct;
          pending_distinct = AssocLaws.insert-Distinct c k inner.pending v.pending_distinct;
          order_nodup = v.order_nodup;
          order_exact = v.order_exact;
          ids_bounded = v.ids_bounded;
          pending_live =
              AssocLaws.insert-AllValues (IsLive inner.connections) c k inner.pending
                (AssocLaws.contains-eq-get k inner.connections ∙ rw e) v.pending_live;
        })
]

resolve_command-IsValid :
    (inner : ManagerInner) (c k : Text) → IsValid inner → IsValid (resolve_command inner c k).0
unfolding resolve_command
resolve_command-IsValid inner c k v = elim (Bool-cases (waits_on (Assoc.get c inner.pending) k)) [
  | inl yes_waits ↦ rw (yes_waits, resolve_command) (remove_pending-IsValid inner c v)
  | inr no_waits ↦ rw (no_waits, resolve_command) v
]

step-IsValid : (op : Op) (inner : ManagerInner) → IsValid inner → IsValid (step op inner)
unfolding step forget_pending
step-IsValid (connects k) inner v = connect-IsValid inner k v
step-IsValid (disconnects k id) inner v = disconnect-IsValid inner k id v
step-IsValid (begins k c) inner v = begin_command-IsValid inner k c v
step-IsValid (forgets c) inner v = remove_pending-IsValid inner c v
step-IsValid (resolves c k) inner v = resolve_command-IsValid inner c k v

-- After any sequence of calls the reported order lists each connected node exactly once, socket
-- ids are at most the last one given out, and every command in flight waits on a connected node.
pub run-IsValid : (ops : List Op) → IsValid (run ops)
unfolding run Assoc.contains member
run-IsValid [] = record {
  connections_distinct = tt;
  pending_distinct = tt;
  order_nodup = tt;
  order_exact = λ n. refl;
  ids_bounded = tt;
  pending_live = tt;
}
run-IsValid (op ∷ ops) = step-IsValid op (run ops) (run-IsValid ops)
