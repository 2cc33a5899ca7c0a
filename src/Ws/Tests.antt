-- ===== src/Ws/Tests.antt =====
-- Runs of the limiter and the connection manager of ws.rs at concrete inputs.
use sentinel_command.Prelude.{
  ℕ, ◌≡◌, refl, true, false, List, [], ◌∷◌, none, some, arith, suc, ltb, ◌⊎◌, ◌↔◌, ◌≢◌,
}
use sentinel_command.Text.{Text, text_eq, codes}
use sentinel_command.Assoc.{keep_if}
use sentinel_command.Assoc
use sentinel_command.Window.{count, pop_aged, back}
use sentinel_command.Ws.Limiter.{allow, sweep}
use sentinel_command.Ws.Limiter.Windows.{young}
use sentinel_command.Ws.Limiter.Budget.{Call, run, granted, allow_iff_room}
use sentinel_command.Ws.Manager.{
  CommandResult, CommandError, connect, disconnect, begin_command, resolve_command, send_command,
  Sent, Answer,
}
use sentinel_command.Ws.Manager.Invariant.{IsValid, Op, connects, begins, run-IsValid, step}
use sentinel_command.Ws.Manager.Invariant.{run as run_ops}
use sentinel_command.Ws.Manager.Sockets.{
  disconnect-connect_old, pending-connect, resolve_command_lem, send_command-forgets,
  send_command-spares,
}

abbrev node_a : Text
node_a = codes "node-a"

abbrev node_b : Text
node_b = codes "node-b"

abbrev three_calls : List Call
three_calls = (node_a, 30) ∷ (node_b, 20) ∷ (node_a, 10) ∷ []

-- The third call of the node within a minute finds its budget of two used up.
third_call_refused : (allow 2 (run 2 three_calls) node_a 40).1 ≡ false
unfolding run allow sweep pop_aged back Assoc.get Assoc.insert Assoc.retain
third_call_refused = refl

allow_iff_room_example :
    (allow 2 (run 2 three_calls) node_a 40).1
    ≡ ltb (count (young 40) (granted 2 node_a three_calls)) 2
allow_iff_room_example = allow_iff_room 2 40 node_a three_calls (omega arith)

-- A node with a socket and a command in flight.
abbrev busy : List Op
busy = begins node_a (codes "c1") ∷ connects node_a ∷ []

run-IsValid_example : IsValid (run_ops busy)
run-IsValid_example = run-IsValid busy

busy_node : Assoc.get node_a (run_ops busy).connections ≡ some 1
unfolding run_ops step connect begin_command Assoc.get Assoc.insert Assoc.contains
busy_node = refl

busy_connected : Assoc.contains node_a (run_ops busy).connections ≡ true
unfolding run_ops step connect begin_command Assoc.get Assoc.insert Assoc.contains
busy_connected = refl

disconnect-connect_old_example :
    disconnect (connect (run_ops busy) node_a).0 node_a 0 ≡ (connect (run_ops busy) node_a).0
disconnect-connect_old_example = disconnect-connect_old (run_ops busy) node_a 0 (omega arith)

pending-connect_example :
    (Assoc.get (codes "c1") (connect (run_ops busy) node_a).0.pending ≡ some node_a)
    ↔ ((Assoc.get (codes "c1") (run_ops busy).pending ≡ some node_a) × (node_a ≢ node_a))
pending-connect_example =
    pending-connect (run_ops busy) node_a (codes "c1") node_a (run-IsValid busy)

busy_waiting : Assoc.get (codes "c1") (run_ops busy).pending ≡ some node_a
unfolding run_ops step connect begin_command Assoc.get Assoc.insert Assoc.contains
busy_waiting = refl

resolve_command_lem_example : (resolve_command (run_ops busy) (codes "c1") node_a).1 ≡ true
resolve_command_lem_example =
    (resolve_command_lem (run_ops busy) (codes "c1") node_a).0.1 busy_waiting

send_command-forgets_example :
    ((Assoc.get node_a (run_ops busy).connections ≡ none)
      × (send_command {V = ℕ}
            (run_ops busy)
            node_a
            (codes "ping")
            (codes "c2")
            (λ s. s)
            Sent.written
            (λ s. s)
            (Answer.value 1)
          ≡ (run_ops busy, CommandResult.err (CommandError.not_connected node_a))))
    ⊎ ((id : ℕ) × (Assoc.get node_a (run_ops busy).connections ≡ some id)
        × (Assoc.get
              (codes "c2")
              (send_command {V = ℕ}
                (run_ops busy)
                node_a
                (codes "ping")
                (codes "c2")
                (λ s. s)
                Sent.written
                (λ s. s)
                (Answer.value 1)).0.pending
            ≡ none))
send_command-forgets_example =
    send_command-forgets (run_ops busy) node_a (codes "ping") (codes "c2") (λ s. s) (λ s. s)
      (Answer.value 1) Sent.written

send_command-spares_example :
    Assoc.get node_a
      (send_command {V = ℕ}
        (run_ops busy)
        node_a
        (codes "ping")
        (codes "c2")
        (λ s. (connect s node_a).0)
        Sent.channel_closed
        (λ s. s)
        Answer.sender_dropped).0.connections
    ≡ some (suc (run_ops busy).next_id)
send_command-spares_example =
    send_command-spares (run_ops busy) node_a (codes "ping") (codes "c2") (λ s. s) (λ s. s)
      Answer.sender_dropped 1 (run-IsValid busy) busy_node
