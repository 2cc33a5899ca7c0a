-- ===== src/Sse.antt =====
-- backend-rs/src/sse.rs, `Broadcaster`: the event streams of each organisation.
-- The bounded channel of a subscriber is not code of the repository and is a parameter.
pub mod Invariant
pub mod Calls
pub mod Fanout
mod Tests
use sentinel_command.Prelude.{
  ℕ, ◌+◌, ◌≡◌, Bool, true, false, not, ◌&&◌, List, [], ◌∷◌, ◌++◌, Option, none, some, length, leb,
  nat_beq, if◌then◌else◌, keep, suc,
}
use sentinel_command.Interfaces.{◌==◌}
use sentinel_command.Text.{Text, text_eq, codes, is_empty}
use sentinel_command.Assoc.{Assoc, total}
use sentinel_command.Assoc

-- What `try_send` came to.
pub data TrySend : Type 0 where
  sent : TrySend
  full : TrySend
  closed : TrySend

-- `mpsc::channel` and `Sender::try_send`.
pub record Channel : Type 1 where
  pub Tx : Type 0
  pub channel : ℕ → Tx
  pub try_send : Tx → Text → Tx × TrySend

abbrev pub queue_depth : ℕ
queue_depth = 100

pub record Subscriber (Tx : Type 0) : Type 0 where
  pub id : ℕ
  pub tx : Tx
  pub is_admin : Bool

pub record Inner (Tx : Type 0) : Type 0 where
  pub subscribers : Assoc Text (List (Subscriber Tx))
  pub next_id : ℕ

-- `entry(org_id).or_default()`.
abbrev pub or_empty {ℓ} : {A : Type ℓ} → Option (List A) → List A
or_empty none = []
or_empty (some xs) = xs

abbrev pub is_full : TrySend → Bool
is_full sent = false
is_full full = true
is_full closed = false

module _ (c : Channel) where
  open c use {Tx, channel, try_send}

  abbrev pub start : Inner Tx
  start = record { subscribers = []; next_id = 0 }

  -- The subscription's id, or `none` at the cap. The entry of the organisation is made either way.
  unfoldable pub subscribe : Inner Tx → Text → Bool → ℕ → Inner Tx × Option ℕ
  subscribe inner org_id is_admin cap =
      let existing = or_empty (Assoc.get org_id inner.subscribers) in
      if leb cap (length existing)
      then (record inner { subscribers = Assoc.insert org_id existing inner.subscribers }, none)
      else (
        record {
          subscribers =
              Assoc.insert org_id
                (existing
                  ++ record {
                    id = suc inner.next_id;
                    tx = channel queue_depth;
                    is_admin = is_admin;
                  }
                    ∷ [])
                inner.subscribers;
          next_id = suc inner.next_id;
        },
        some (suc inner.next_id),
      )

  -- The closure of `retain` in `notify`: the subscriber afterwards, or `none` when it is dropped.
  abbrev pub deliver : Text → Text → Subscriber Tx → Option (Subscriber Tx)
  deliver audience payload s =
      if audience == codes "admin" && not s.is_admin
      then some s
      else (if is_full (try_send s.tx payload).1
          then none
          else some (record s { tx = (try_send s.tx payload).0 }))

  unfoldable pub fan_out : Text → Text → List (Subscriber Tx) → List (Subscriber Tx)
  fan_out audience payload [] = []
  fan_out audience payload (s ∷ subscribers) = elim (deliver audience payload s) [
    | none ↦ fan_out audience payload subscribers
    | some kept ↦ kept ∷ fan_out audience payload subscribers
  ]

  unfoldable pub notify : Inner Tx → Text → Text → Text → Inner Tx
  unfolding fan_out
  notify inner org_id audience payload = elim (Assoc.get org_id inner.subscribers) [
    | none ↦ inner
    | some subscribers ↦ record inner {
      subscribers = Assoc.insert org_id (fan_out audience payload subscribers) inner.subscribers;
    }
  ]

  -- The drop of a `Subscription`.
  unfoldable pub unsubscribe : Inner Tx → Text → ℕ → Inner Tx
  unsubscribe inner org_id id = elim (Assoc.get org_id inner.subscribers) [
    | none ↦ inner
    | some subscribers ↦ record inner {
      subscribers =
          Assoc.insert org_id (keep (λ s. not (nat_beq s.id id)) subscribers) inner.subscribers;
    }
  ]

  -- The organisations with a subscriber, and all subscribers.
  unfoldable pub counts : Inner Tx → ℕ × ℕ
  counts inner =
      (total (λ s. if is_empty s then 0 else 1) inner.subscribers, total length inner.subscribers)

  unfoldable pub clear : Inner Tx → Inner Tx
  clear inner = record inner { subscribers = [] }
