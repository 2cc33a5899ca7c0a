-- ===== src/Sse/Calls.antt =====
-- sse.rs, `Broadcaster`: sequences of calls, interleaved with what the streams read.
use sentinel_command.Prelude.{ℕ, ◌≤◌, ◌<◌, ◌≡◌, refl, Bool, List, [], ◌∷◌, length, arith, All}
use sentinel_command.Text.{Text, text_eq}
use sentinel_command.Assoc.{Assoc, AllValues}
use sentinel_command.Sse.{Channel, Subscriber, Inner, start, subscribe, notify, unsubscribe, clear}
use sentinel_command.Sse.Invariant.{
  Rising, Slots, IsValid, subscribe-IsValid, notify-IsValid, unsubscribe-IsValid,
}

module _ (c : Channel) where
  open c use {Tx}

  -- What the streams read between two calls: any change of each channel.
  unfoldable pub read_each : (Tx → Tx) → List (Subscriber Tx) → List (Subscriber Tx)
  read_each f [] = []
  read_each f (s ∷ ss) = record s { tx = f s.tx } ∷ read_each f ss

  unfoldable pub read_all :
      (Tx → Tx) → Assoc Text (List (Subscriber Tx)) → Assoc Text (List (Subscriber Tx))
  unfolding read_each
  read_all f [] = []
  read_all f ((org_id, ss) ∷ m) = (org_id, read_each f ss) ∷ read_all f m

  read_each-All :
      (a : ℕ) (f : Tx → Tx) (ss : List (Subscriber Tx))
      → All (λ u. a < u.id) ss
      → All (λ u. a < u.id) (read_each f ss)
  unfolding read_each
  read_each-All a f [] h = tt
  read_each-All a f (s ∷ ss) h = (h.0, read_each-All a f ss h.1)

  read_each-Slots :
      (cap last : ℕ) (f : Tx → Tx) (ss : List (Subscriber Tx))
      → Slots cap last ss
      → Slots cap last (read_each f ss)
  unfolding read_each
  read_each-Slots cap last f ss v = record {
    rising = rising ss v.rising;
    capped = omega (arith, len ss, v.capped);
  }
    where
      rising : (xs : List (Subscriber Tx)) → Rising last xs → Rising last (read_each f xs)
      rising [] r = tt
      rising (x ∷ xs) r = (r.0, read_each-All x.id f xs r.1, rising xs r.2)

      len : (xs : List (Subscriber Tx)) → length (read_each f xs) ≡ length xs
      len [] = refl
      len (x ∷ xs) = omega (arith, len xs)

  read_all-AllValues :
      (cap last : ℕ) (f : Tx → Tx) (m : Assoc Text (List (Subscriber Tx)))
      → AllValues (Slots cap last) m
      → AllValues (Slots cap last) (read_all f m)
  unfolding read_all
  read_all-AllValues cap last f [] v = tt
  read_all-AllValues cap last f ((org_id, ss) ∷ m) v =
      (read_each-Slots cap last f ss v.0, read_all-AllValues cap last f m v.1)

  -- A call of the broadcaster; a subscription is refused above its own limit.
  pub data Op : Type 0 where
    subscribes : Text → Bool → ℕ → Op
    notifies : Text → Text → Text → Op
    unsubscribes : Text → ℕ → Op
    clears : Op
    reads : (Tx → Tx) → Op

  unfoldable pub step : Op → Inner Tx → Inner Tx
  unfolding read_all
  step (subscribes org_id is_admin limit) inner = (subscribe c inner org_id is_admin limit).0
  step (notifies org_id audience payload) inner = notify c inner org_id audience payload
  step (unsubscribes org_id id) inner = unsubscribe c inner org_id id
  step clears inner = clear c inner
  step (reads f) inner = record inner { subscribers = read_all f inner.subscribers }

  unfoldable pub run : List Op → Inner Tx
  run [] = start c
  run (op ∷ ops) = step op (run ops)

  abbrev pub AsksWithin : ℕ → Op → Type 0
  AsksWithin cap (subscribes org_id is_admin limit) = limit ≤ cap
  AsksWithin cap (notifies org_id audience payload) = Unit
  AsksWithin cap (unsubscribes org_id id) = Unit
  AsksWithin cap clears = Unit
  AsksWithin cap (reads f) = Unit

  step-IsValid :
      (cap : ℕ) (op : Op) (inner : Inner Tx)
      → AsksWithin cap op
      → IsValid cap inner
      → IsValid cap (step op inner)
  unfolding step clear
  step-IsValid cap (subscribes org_id is_admin limit) inner w v =
      subscribe-IsValid c inner org_id is_admin limit cap w v
  step-IsValid cap (notifies org_id audience payload) inner w v =
      notify-IsValid c inner org_id audience payload cap v
  step-IsValid cap (unsubscribes org_id id) inner w v = unsubscribe-IsValid c inner org_id id cap v
  step-IsValid cap clears inner w v = tt
  step-IsValid cap (reads f) inner w v = read_all-AllValues cap inner.next_id f inner.subscribers v

  -- After any calls whose limits are at most a cap, however they and the streams' reads
  -- interleave, each organisation has at most that many subscribers, and their ids rise along its
  -- list and are at most the last one given out.
  pub run-Capped : (cap : ℕ) (ops : List Op) → All (AsksWithin cap) ops → IsValid cap (run ops)
  unfolding run
  run-Capped cap [] w = tt
  run-Capped cap (op ∷ ops) w = step-IsValid cap op (run ops) w.0 (run-Capped cap ops w.1)
