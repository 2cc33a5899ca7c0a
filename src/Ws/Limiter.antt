-- ===== src/Ws/Limiter.antt =====
-- backend-rs/src/ws.rs, `NodeRateLimiter`: a sliding window per node id. `now` is the instant of a
-- call, in nanoseconds.
pub mod Windows
pub mod Budget
use sentinel_command.Prelude.{
  ℕ, ◌+◌, ◌-◌, ◌*◌, Bool, true, false, not, List, [], ◌∷◌, ◌++◌, Option, none, some, length, leb,
  ltb, if◌then◌else◌,
}
use sentinel_command.Text.{Text, text_eq}
use sentinel_command.Assoc.{Assoc}
use sentinel_command.Assoc
use sentinel_command.Window.{pop_aged, back, or_nil}

pub record LimiterInner : Type 0 where
  pub windows : Assoc Text (List ℕ)
  pub last_sweep : Option ℕ

abbrev pub start : LimiterInner
start = record { windows = []; last_sweep = none }

-- `WINDOW`, a minute.
abbrev pub window_length : ℕ
window_length = 60 * 1_000_000_000

abbrev pub is_young : ℕ → Option ℕ → Bool
is_young now none = false
is_young now (some at) = ltb (now - at) window_length

unfoldable pub sweep : LimiterInner → ℕ → LimiterInner
sweep inner now = if is_young now inner.last_sweep then inner else record {
  windows = Assoc.retain (λ _ window. is_young now (back window)) inner.windows;
  last_sweep = some now;
}

unfoldable pub allow : ℕ → LimiterInner → Text → ℕ → LimiterInner × Bool
unfolding sweep
allow max inner node_id now =
    let swept = sweep inner now in
    let window =
      pop_aged (λ at. leb window_length (now - at)) (or_nil (Assoc.get node_id swept.windows)) in
    if leb max (length window)
    then (record swept { windows = Assoc.insert node_id window swept.windows }, false)
    else (record swept { windows = Assoc.insert node_id (window ++ now ∷ []) swept.windows }, true)

unfoldable pub forget : LimiterInner → Text → LimiterInner
forget inner node_id = record inner { windows = Assoc.remove node_id inner.windows }
