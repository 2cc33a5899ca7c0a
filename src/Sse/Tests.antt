-- ===== src/Sse/Tests.antt =====
-- Runs of the broadcaster of sse.rs at concrete inputs, over a queue that is a list.
use sentinel_command.Prelude.{
  ℕ, ◌≡◌, refl, true, false, List, [], ◌∷◌, ◌++◌, some, length, leb, if◌then◌else◌, arith,
}
use sentinel_command.Text.{Text, text_eq, codes}
use sentinel_command.Assoc
use sentinel_command.Sse.{Channel, TrySend, subscribe, notify, unsubscribe}
use sentinel_command.Sse.Invariant.{IsValid}
use sentinel_command.Sse.Calls.{Op, run, run-Capped, step}
use sentinel_command.Sse.Fanout.{Notified, list_of, notify-Notified, unsubscribe-subscribe}

abbrev queue : Channel
queue = record {
  Tx = ℕ × List Text;
  channel = λ n. (n, []);
  try_send = λ tx payload.
      if leb tx.0 (length tx.1)
      then (tx, TrySend.full)
      else ((tx.0, tx.1 ++ payload ∷ []), TrySend.sent);
}

abbrev org_a : Text
org_a = codes "org_a"

abbrev two_joined : List (Op queue)
two_joined = Op.subscribes org_a true 10 ∷ Op.subscribes org_a false 10 ∷ []

two_joined-IsValid : IsValid 10 (run queue two_joined)
two_joined-IsValid = run-Capped queue 10 two_joined (omega arith, (omega arith, tt))

run-Capped_example : IsValid 10 (run queue two_joined)
run-Capped_example = run-Capped queue 10 two_joined (omega arith, (omega arith, tt))

notify-Notified_example :
    Notified queue
      (codes "admin")
      (codes "{}")
      org_a
      (run queue two_joined)
      (notify queue (run queue two_joined) org_a (codes "admin") (codes "{}"))
notify-Notified_example =
    notify-Notified queue (run queue two_joined) org_a (codes "admin") (codes "{}") 10
      two_joined-IsValid

third_taken : (subscribe queue (run queue two_joined) org_a true 10).1 ≡ some 3
unfolding run step subscribe Assoc.get Assoc.insert
third_taken = refl

unsubscribe-subscribe_example :
    list_of
      (codes "org_b")
      (unsubscribe queue (subscribe queue (run queue two_joined) org_a true 10).0 org_a 3)
    ≡ list_of (codes "org_b") (run queue two_joined)
unsubscribe-subscribe_example =
    unsubscribe-subscribe queue (run queue two_joined) org_a (codes "org_b") true 10 10 3
      two_joined-IsValid third_taken
