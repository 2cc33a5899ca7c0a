-- ===== src/Hls/Auth.antt =====
-- backend-rs/src/hls.rs, the auth cache: `AuthCache`, the process-wide generation, and the lookups
-- of the push and view paths. `ttl` is `auth_ttl()`, read from the environment; `now` an instant.
pub mod Tags
use sentinel_command.Prelude.{
  ℕ, ◌+◌, ◌-◌, ◌%◌, ◌^◌, Bool, true, false, List, [], ◌∷◌, Option, none, some, length, leb, ltb,
  nat_beq, if◌then◌else◌, not, ◌||◌,
}
use sentinel_command.Prelude.Int.{ℤ}
use sentinel_command.Interfaces.{Eq, ◌==◌, int_eq, pair_eq}
use sentinel_command.Text.{Text, text_eq}
use sentinel_command.Assoc.{Assoc}
use sentinel_command.Assoc

pub record PushNode : Type 0 where
  pub pk : ℤ
  pub org_id : Text
  pub node_id : Text

pub record PushCamera : Type 0 where
  pub name : Text
  pub disabled_by_plan : Bool

pub record AuthCache : Type 0 where
  pub generation : ℕ
  pub nodes : Assoc Text (PushNode × ℕ)
  pub cameras : Assoc (ℤ × Text) (PushCamera × ℕ)
  pub viewable : Assoc (Text × Text) (Text × ℕ)

-- The cache with the static `AUTH_GENERATION` beside it.
pub record AuthState : Type 0 where
  pub current : ℕ
  pub auth : AuthCache

abbrev pub start : AuthState
start = record {
  current = 0;
  auth = record { generation = 0; nodes = []; cameras = []; viewable = [] };
}

abbrev pub auth_cache_max_entries : ℕ
auth_cache_max_entries = 10_000

-- `fetch_add(1)` on a 64-bit counter.
unfoldable pub invalidate_auth_cache : AuthState → AuthState
invalidate_auth_cache s = record s { current = (s.current + 1) % 2 ^ 64 }

unfoldable pub auth_generation : AuthState → ℕ
auth_generation s = s.current

-- `AuthCache::sync`.
unfoldable pub sync : AuthState → AuthState
sync s = if nat_beq s.auth.generation s.current then s else record s {
  auth = record { generation = s.current; nodes = []; cameras = []; viewable = [] };
}

-- `at.elapsed() < auth_ttl()`.
abbrev pub fresh : ℕ → ℕ → ℕ → Bool
fresh ttl now at = ltb (now - at) ttl

unfoldable pub put {ℓ κ} :
    {K : Type ℓ} {V : Type κ} ⦃e : Eq K⦄ → ℕ → Assoc K V → ℕ → ℕ → K → V → Assoc K V
put ttl map current seen key value =
    if not (nat_beq seen current) || nat_beq ttl 0
    then map
    else Assoc.insert key value (if leb auth_cache_max_entries (length map) then [] else map)

-- `.filter(|(_, at)| fresh(*at)).map(|(v, _)| v.clone())`.
abbrev pub if_fresh {ℓ} : {V : Type ℓ} → ℕ → ℕ → Option (V × ℕ) → Option V
if_fresh ttl now none = none
if_fresh ttl now (some (v, at)) = if fresh ttl now at then some v else none

-- Each lookup returns the synced state and the answer.
unfoldable pub cached_push_node : ℕ → ℕ → Text → AuthState → AuthState × Option PushNode
unfolding sync
cached_push_node ttl now key_hash s =
    (sync s, if_fresh ttl now (Assoc.get key_hash (sync s).auth.nodes))

unfoldable pub cache_push_node : ℕ → ℕ → ℕ → Text → PushNode → AuthState → AuthState
unfolding sync put
cache_push_node ttl now seen key_hash node s =
    let auth = (sync s).auth in
    record s {
      auth = record auth { nodes = put ttl auth.nodes auth.generation seen key_hash (node, now) };
    }

unfoldable pub cached_push_camera : ℕ → ℕ → ℤ → Text → AuthState → AuthState × Option PushCamera
unfolding sync
cached_push_camera ttl now node_pk camera_id s =
    (sync s, if_fresh ttl now (Assoc.get (node_pk, camera_id) (sync s).auth.cameras))

unfoldable pub cache_push_camera : ℕ → ℕ → ℕ → ℤ → Text → PushCamera → AuthState → AuthState
unfolding sync put
cache_push_camera ttl now seen node_pk camera_id camera s =
    let auth = (sync s).auth in
    record s {
      auth = record auth {
        cameras = put ttl auth.cameras auth.generation seen (node_pk, camera_id) (camera, now);
      };
    }

unfoldable pub cached_viewable : ℕ → ℕ → Text → Text → AuthState → AuthState × Option Text
unfolding sync
cached_viewable ttl now org_id camera_id s =
    (sync s, if_fresh ttl now (Assoc.get (org_id, camera_id) (sync s).auth.viewable))

unfoldable pub cache_viewable : ℕ → ℕ → ℕ → Text → Text → Text → AuthState → AuthState
unfolding sync put
cache_viewable ttl now seen org_id camera_id node_id s =
    let auth = (sync s).auth in
    record s {
      auth = record auth {
        viewable = put ttl auth.viewable auth.generation seen (org_id, camera_id) (node_id, now);
      };
    }
