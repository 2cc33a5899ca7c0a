-- ===== src/Ws/Manager.antt =====
-- backend-rs/src/ws.rs, `ConnectionManager`: the sockets of the nodes and the commands in flight.
-- A channel is not code of the repository: a socket is known by its id, and dropping a command's
-- answer sender is the removal of its pending entry. `next_id` is a 64-bit counter of sockets, one
-- step for each connect, and is modelled without a bound.
pub mod Invariant
pub mod Sockets
use sentinel_command.Prelude.{
  ℕ, ◌+◌, Bool, true, false, not, List, [], ◌∷◌, ◌++◌, Option, none, some, nat_beq, if◌then◌else◌,
  keep, suc,
}
use sentinel_command.Interfaces.{◌==◌}
use sentinel_command.Text.{Text, text_eq}
use sentinel_command.Assoc.{Assoc}
use sentinel_command.Assoc

-- `ManagerInner`; of a pending command the node that it went to.
pub record ManagerInner : Type 0 where
  pub connections : Assoc Text ℕ
  pub order : List Text
  pub pending : Assoc Text Text
  pub next_id : ℕ

abbrev pub start : ManagerInner
start = record { connections = []; order = []; pending = []; next_id = 0 }

unfoldable pub connected_nodes : ManagerInner → List Text
connected_nodes inner = inner.order

unfoldable pub is_connected : ManagerInner → Text → Bool
is_connected inner node_id = Assoc.contains node_id inner.connections

unfoldable pub cancel_pending : ManagerInner → Text → ManagerInner
cancel_pending inner node_id = record inner {
  pending = Assoc.retain (λ _ node. not (node == node_id)) inner.pending;
}

-- The new state, and the id of the socket.
unfoldable pub connect : ManagerInner → Text → ManagerInner × ℕ
unfolding cancel_pending
connect inner node_id =
    let id = suc inner.next_id in
    let added = record inner {
      connections = Assoc.insert node_id id inner.connections;
      next_id = id;
    } in
    (
      if Assoc.contains node_id inner.connections
          then cancel_pending added node_id
          else record added { order = inner.order ++ node_id ∷ [] },
      id,
    )

abbrev pub owns_socket : Option ℕ → ℕ → Bool
owns_socket none id = false
owns_socket (some existing) id = nat_beq existing id

unfoldable pub disconnect : ManagerInner → Text → ℕ → ManagerInner
unfolding cancel_pending
disconnect inner node_id id =
    if owns_socket (Assoc.get node_id inner.connections) id
    then cancel_pending
        (record inner {
          connections = Assoc.remove node_id inner.connections;
          order = keep (λ existing. not (existing == node_id)) inner.order;
        })
        node_id
    else inner

-- The first critical section of `send_command`: the socket to write to, if there is one.
unfoldable pub begin_command : ManagerInner → Text → Text → ManagerInner × Option ℕ
begin_command inner node_id correlation_id = elim (Assoc.get node_id inner.connections) [
  | none ↦ (inner, none)
  | some id ↦
      (record inner { pending = Assoc.insert correlation_id node_id inner.pending }, some id)
]

unfoldable pub forget_pending : ManagerInner → Text → ManagerInner
forget_pending inner correlation_id = record inner {
  pending = Assoc.remove correlation_id inner.pending;
}

abbrev pub waits_on : Option Text → Text → Bool
waits_on none node_id = false
waits_on (some node) node_id = node == node_id

-- The new state, and whether the answer was delivered.
unfoldable pub resolve_command : ManagerInner → Text → Text → ManagerInner × Bool
resolve_command inner correlation_id node_id =
    if waits_on (Assoc.get correlation_id inner.pending) node_id
    then (record inner { pending = Assoc.remove correlation_id inner.pending }, true)
    else (inner, false)

pub data CommandError : Type 0 where
  not_connected : Text → CommandError
  send_failed : Text → CommandError
  timeout : Text → Text → CommandError
  disconnected : Text → Text → CommandError

-- How the awaits of `send_command` end: the write of the frame, and the wait for the answer.
pub data Sent : Type 0 where
  written channel_closed write_timed_out : Sent

pub data Answer (V : Type 0) : Type 0 where
  value : V → Answer V
  sender_dropped : Answer V
  answer_timed_out : Answer V

pub data CommandResult (V : Type 0) : Type 0 where
  ok : V → CommandResult V
  err : CommandError → CommandResult V

abbrev outcome_of : {V : Type 0} → Text → Text → Answer V → CommandResult V
outcome_of node_id command (value v) = ok v
outcome_of node_id command sender_dropped = err (disconnected node_id command)
outcome_of node_id command answer_timed_out = err (timeout node_id command)

-- `send_command` whole. `during` is what other tasks did to the manager while the command waited
-- to be written, and `later` while it waited for its answer; the guard forgets the entry however
-- the call ends.
unfoldable pub send_command :
    {V : Type 0}
    → ManagerInner
    → Text
    → Text
    → Text
    → (ManagerInner → ManagerInner)
    → Sent
    → (ManagerInner → ManagerInner)
    → Answer V
    → ManagerInner × CommandResult V
unfolding begin_command disconnect forget_pending
send_command inner node_id command correlation_id during sent later answer =
    elim (begin_command inner node_id correlation_id).1 [
      | none ↦ (inner, err (not_connected node_id))
      | some connection_id ↦
          (let waited = during (begin_command inner node_id correlation_id).0 in
            elim sent [
              | written ↦
                  (forget_pending (later waited) correlation_id, outcome_of node_id command answer)
              | channel_closed ↦ (
                forget_pending (disconnect waited node_id connection_id) correlation_id,
                err (send_failed node_id),
              )
              | write_timed_out ↦
                  (forget_pending waited correlation_id, err (timeout node_id command))
            ])
    ]
