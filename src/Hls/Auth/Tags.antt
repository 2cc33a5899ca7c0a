-- ===== src/Hls/Auth/Tags.antt =====
-- hls.rs, the auth cache under every interleaving of lookups, writes and invalidations.
use sentinel_command.Prelude.{
  ℕ, ◌≡◌, sym, ap, subst, ◌∙◌, ◌⊎◌, inl, inr, List, [], ◌∷◌, some, arith, Option-cases,
}
use sentinel_command.Prelude.Int.{ℤ}
use sentinel_command.Interfaces.{Eq, int_eq, pair_eq}
use sentinel_command.Text.{Text, text_eq}
use sentinel_command.Assoc.{Assoc}
use sentinel_command.Assoc
use sentinel_command.Assoc.Laws as AssocLaws
use sentinel_command.Hls.Auth.{
  PushNode, PushCamera, AuthState, start, invalidate_auth_cache, sync, put, if_fresh,
  cached_push_node, cache_push_node, cached_push_camera, cache_push_camera, cached_viewable,
  cache_viewable,
}

-- The calls on the cache, each with the clock it reads; a write with the generation it saw.
pub data Event : Type 0 where
  invalidates : Event
  looks_up_node : ℕ → Text → Event
  looks_up_camera : ℕ → ℤ → Text → Event
  looks_up_viewable : ℕ → Text → Text → Event
  caches_node : ℕ → ℕ → Text → PushNode → Event
  caches_camera : ℕ → ℕ → ℤ → Text → PushCamera → Event
  caches_viewable : ℕ → ℕ → Text → Text → Text → Event

module _ (ttl : ℕ) where
  unfoldable pub step : Event → AuthState → AuthState
  step invalidates s = invalidate_auth_cache s
  step (looks_up_node now k) s = (cached_push_node ttl now k s).0
  step (looks_up_camera now pk c) s = (cached_push_camera ttl now pk c s).0
  step (looks_up_viewable now org c) s = (cached_viewable ttl now org c s).0
  step (caches_node now seen k node) s = cache_push_node ttl now seen k node s
  step (caches_camera now seen pk c camera) s = cache_push_camera ttl now seen pk c camera s
  step (caches_viewable now seen org c node_id) s = cache_viewable ttl now seen org c node_id s

  -- The state after a history, its last event first.
  unfoldable pub run : List Event → AuthState
  run [] = start
  run (e ∷ es) = step e (run es)

-- The history has a write of this node under this key, tagged with the generation.
abbrev pub WroteNode : ℕ → Text → PushNode → List Event → Type 0
WroteNode generation key node [] = ⊥
WroteNode generation key node (caches_node now seen k n ∷ es) =
    ((seen ≡ generation) × (k ≡ key) × (n ≡ node)) ⊎ WroteNode generation key node es
WroteNode generation key node (e ∷ es) = WroteNode generation key node es

-- Every entry was written under the generation that the cache stands for.
abbrev NodesTagged : List Event → AuthState → Type 0
NodesTagged es s =
    (key : Text) (node : PushNode) (at : ℕ)
    → Assoc.get key s.auth.nodes ≡ some (node, at)
    → WroteNode s.auth.generation key node es

sync-NodesTagged : (es : List Event) (s : AuthState) → NodesTagged es s → NodesTagged es (sync s)
unfolding sync Assoc.get
sync-NodesTagged es s t key node at = ground (arith, t key node at)

put-cases {ℓ κ} :
    {K : Type ℓ} {V : Type κ} ⦃e : Eq K⦄ (ttl : ℕ) (map : Assoc K V) (current seen : ℕ) (k j : K)
    (v w : V)
    → Assoc.get j (put ttl map current seen k v) ≡ some w
    → (Assoc.get j map ≡ some w) ⊎ ((seen ≡ current) × (k ≡ j) × (v ≡ w))
unfolding put Assoc.get
put-cases ⦃e⦄ ttl map current seen k j v w h =
    ground (arith, AssocLaws.get-insert k j v map, AssocLaws.get-insert k j v [], e.beq_iff k j)

-- What a fresh entry is served as.
served {ℓ} :
    {V : Type ℓ} (ttl now : ℕ) (v w : V) (at : ℕ) → if_fresh ttl now (some (v, at)) ≡ some w → v ≡ w
served ttl now v w at h = ground arith

module _ (ttl : ℕ) where
  write_node :
      (es : List Event) (s : AuthState) (now seen : ℕ) (k : Text) (n : PushNode)
      → NodesTagged es (sync s)
      → NodesTagged (caches_node now seen k n ∷ es) (cache_push_node ttl now seen k n s)
  unfolding cache_push_node
  write_node es s now seen k n t key node at h =
      elim (put-cases ttl (sync s).auth.nodes (sync s).auth.generation seen k key (n, now)
        (node, at) h) [
          | inl old ↦ inr (t key node at old)
          | inr (a, b, c) ↦ inl (a, b, ap (λ (p : PushNode × ℕ). p.0) c)
        ]

  step-NodesTagged :
      (e : Event) (es : List Event) (s : AuthState)
      → NodesTagged es s
      → NodesTagged (e ∷ es) (step ttl e s)
  unfolding step invalidate_auth_cache cached_push_node cached_push_camera cached_viewable
      cache_push_camera cache_viewable
  step-NodesTagged invalidates es s t = t
  step-NodesTagged (looks_up_node now k) es s t = sync-NodesTagged es s t
  step-NodesTagged (looks_up_camera now pk c) es s t = sync-NodesTagged es s t
  step-NodesTagged (looks_up_viewable now org c) es s t = sync-NodesTagged es s t
  step-NodesTagged (caches_node now seen k n) es s t =
      write_node es s now seen k n (sync-NodesTagged es s t)
  step-NodesTagged (caches_camera now seen pk c camera) es s t = sync-NodesTagged es s t
  step-NodesTagged (caches_viewable now seen org c n) es s t = sync-NodesTagged es s t

  run-NodesTagged : (es : List Event) → NodesTagged es (run ttl es)
  unfolding run Assoc.get
  run-NodesTagged [] key node at h = absurd (cc)
  run-NodesTagged (e ∷ es) key node at h =
      step-NodesTagged e es (run ttl es) (run-NodesTagged es) key node at h

  sync-generation : (s : AuthState) → (sync s).auth.generation ≡ s.current
  unfolding sync
  sync-generation s = ground arith

  -- Whatever calls came before, a key lookup answers only with a node that was cached for that
  -- very key under a tag equal to the generation at the time of the lookup: after an invalidation
  -- no earlier answer, and no write that read an older generation, is served.
  pub cached_push_node-current :
      (es : List Event) (now : ℕ) (key : Text) (node : PushNode)
      → (cached_push_node ttl now key (run ttl es)).1 ≡ some node
      → WroteNode (run ttl es).current key node es
  unfolding cached_push_node
  cached_push_node-current es now key node h =
      elim (Option-cases (Assoc.get key (sync (run ttl es)).auth.nodes)) [
        | inl e ↦ absurd (cc (ap (if_fresh ttl now) e))
        | inr ((n, at), e) ↦
            subst (λ (g : ℕ). WroteNode g key node es) (sync-generation (run ttl es))
              (sync-NodesTagged es (run ttl es) (run-NodesTagged es) key node at (
                e
                ∙ ap (λ (m : PushNode). some (m, at))
                    (served ttl now n node at (ap (if_fresh ttl now) (sym e) ∙ h))))
      ]
