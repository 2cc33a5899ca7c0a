-- ===== src/Plans/Cap/Flags.antt =====
-- plans.rs, `enforce_camera_cap`: which cameras are disabled afterwards.
use sentinel_command.Prelude.{
  ◌≡◌, refl, sym, ap, subst, ◌∙◌, Bool, true, false, not, List, [], ◌∷◌, Option, take, map, arith,
  Bool-cases, inl, inr, ◌⊎◌, All,
}
use sentinel_command.Interfaces.{◌==◌, ==-refl}
use sentinel_command.Text.{Text, text_eq, text_beq_iff, is_empty}
use sentinel_command.Assoc.{member}
use sentinel_command.Hls.Auth.{AuthState}
use sentinel_command.Plans.Cap.{
  Camera, get_plan_limits, camera_ids, or_false, should_disable, flips, set_flag, write_flips,
  cap_cameras, enforce_camera_cap,
}
use sentinel_command.Prelude.Int.{ℤ}
use sentinel_command.Plans.{Caches, Item, Settings, Times, Others, effective_plan_for_caps}

-- The updates of one row in turn.
abbrev settle : List (Text × Bool) → Camera → Camera
settle [] camera = camera
settle (flip ∷ rest) camera = settle rest (set_flag flip camera)

abbrev flip_ids : List (Text × Bool) → List Text
flip_ids fs = map (λ flip. flip.0) fs

map-settle :
    (f : Text × Bool) (fs : List (Text × Bool)) (cameras : List Camera)
    → map (settle fs) (map (set_flag f) cameras) ≡ map (settle (f ∷ fs)) cameras
map-settle f fs [] = refl
map-settle f fs (camera ∷ cameras) = cc (map-settle f fs cameras)

write_flips-settle :
    (fs : List (Text × Bool)) (cameras : List Camera)
    → write_flips fs cameras ≡ map (settle fs) cameras
unfolding write_flips
write_flips-settle [] [] = refl
write_flips-settle [] (camera ∷ cameras) = cc (write_flips-settle [] cameras)
write_flips-settle (f ∷ fs) cameras =
    write_flips-settle fs (map (set_flag f) cameras) ∙ map-settle f fs cameras

set_flag-id : (f : Text × Bool) (camera : Camera) → (set_flag f camera).camera_id ≡ camera.camera_id
set_flag-id f camera = ground arith

settle-id :
    (fs : List (Text × Bool)) (camera : Camera) → (settle fs camera).camera_id ≡ camera.camera_id
settle-id [] camera = refl
settle-id (f ∷ fs) camera = settle-id fs (set_flag f camera) ∙ set_flag-id f camera

module _ (keep_ids : List Text) where
  -- The flag of a row is what it should be.
  abbrev pub HasFlag : Camera → Type 0
  HasFlag camera = or_false camera.disabled_by_plan ≡ should_disable keep_ids camera.camera_id

  abbrev IsRight : Text × Bool → Type 0
  IsRight flip = flip.1 ≡ should_disable keep_ids flip.0

  abbrev IsCovered : List (Text × Bool) → Camera → Type 0
  IsCovered fs camera = HasFlag camera ⊎ (member camera.camera_id (flip_ids fs) ≡ true)

  flips-All : (cameras : List Camera) → All IsRight (flips keep_ids cameras)
  unfolding flips
  flips-All [] = tt
  flips-All (camera ∷ cameras) = ground (arith, flips-All cameras)

  set_flag-HasFlag :
      (f : Text × Bool) (camera : Camera) → IsRight f → HasFlag camera → HasFlag (set_flag f camera)
  set_flag-HasFlag f camera r s =
      ground (arith, r, s, text_beq_iff camera.camera_id f.0, ap (should_disable keep_ids))

  set_flag-hit :
      (f : Text × Bool) (camera : Camera)
      → IsRight f
      → (camera.camera_id == f.0) ≡ true
      → HasFlag (set_flag f camera)
  set_flag-hit f camera r h =
      let same : camera.camera_id ≡ f.0 = (text_beq_iff camera.camera_id f.0).0 h in
      rw h (r ∙ ap (should_disable keep_ids) (sym same))

  settle-HasFlag :
      (fs : List (Text × Bool)) (camera : Camera)
      → All IsRight fs
      → IsCovered fs camera
      → HasFlag (settle fs camera)
  unfolding member
  settle-HasFlag [] camera r (inl s) = s
  settle-HasFlag [] camera r (inr m) = absurd (cc m)
  settle-HasFlag (f ∷ fs) camera r (inl s) =
      settle-HasFlag fs (set_flag f camera) r.1 (inl (set_flag-HasFlag f camera r.0 s))
  settle-HasFlag (f ∷ fs) camera r (inr m) = elim (Bool-cases (camera.camera_id == f.0)) [
    | inl hit ↦ settle-HasFlag fs (set_flag f camera) r.1 (inl (set_flag-hit f camera r.0 hit))
    | inr miss ↦ settle-HasFlag fs (set_flag f camera) r.1 (
        inr (
          ap (λ i. member i (flip_ids fs)) (set_flag-id f camera)
          ∙ ground (
            arith,
            m,
            miss,
            text_beq_iff camera.camera_id f.0,
            text_beq_iff f.0 camera.camera_id,
          )))
  ]

  IsCovered-more :
      (f : Text × Bool) (fs : List (Text × Bool)) (cameras : List Camera)
      → All (IsCovered fs) cameras
      → All (IsCovered (f ∷ fs)) cameras
  unfolding member
  IsCovered-more f fs [] h = tt
  IsCovered-more f fs (camera ∷ cameras) (inl s, h) = (inl s, IsCovered-more f fs cameras h)
  IsCovered-more f fs (camera ∷ cameras) (inr m, h) =
      (inr (ground (arith, m)), IsCovered-more f fs cameras h)

  flips-cases :
      (camera : Camera) (cameras : List Camera)
      → ((flips keep_ids (camera ∷ cameras) ≡ flips keep_ids cameras) × HasFlag camera)
        ⊎ (flips keep_ids (camera ∷ cameras)
            ≡ (camera.camera_id, should_disable keep_ids camera.camera_id) ∷ flips keep_ids cameras)
  unfolding flips
  flips-cases camera cameras = elim (Bool-cases (or_false camera.disabled_by_plan)) [
    | inl on ↦ elim (Bool-cases (member camera.camera_id keep_ids)) [
      | inl kept ↦ inr (rw (on, kept, flips) refl)
      | inr cut ↦ inl (rw (on, cut, flips) refl, on ∙ rw cut refl)
    ]
    | inr off ↦ elim (Bool-cases (member camera.camera_id keep_ids)) [
      | inl kept ↦ inl (rw (off, kept, flips) refl, off ∙ rw kept refl)
      | inr cut ↦ inr (rw (off, cut, flips) refl)
    ]
  ]

  flips-cover : (cameras : List Camera) → All (IsCovered (flips keep_ids cameras)) cameras
  unfolding member
  flips-cover [] = tt
  flips-cover (camera ∷ cameras) = elim (flips-cases camera cameras) [
    | inl (same, s) ↦
        subst (λ fs. All (IsCovered fs) (camera ∷ cameras)) (sym same) (inl s, flips-cover cameras)
    | inr more ↦
        subst (λ fs. All (IsCovered fs) (camera ∷ cameras)) (sym more)
          (
            inr (ground (arith, ==-refl camera.camera_id)),
            IsCovered-more (camera.camera_id, should_disable keep_ids camera.camera_id)
                (flips keep_ids cameras) cameras (flips-cover cameras),
          )
  ]

  settled :
      (fs : List (Text × Bool)) (cameras : List Camera)
      → All IsRight fs
      → All (IsCovered fs) cameras
      → All HasFlag (map (settle fs) cameras)
  settled fs [] r c = tt
  settled fs (camera ∷ cameras) r c = (settle-HasFlag fs camera r c.0, settled fs cameras r c.1)

  flips_none : (cameras : List Camera) → All HasFlag cameras → flips keep_ids cameras ≡ []
  unfolding flips
  flips_none [] s = refl
  flips_none (camera ∷ cameras) s = ground (arith, s.0, flips_none cameras s.1)

ids-settle :
    (fs : List (Text × Bool)) (cameras : List Camera)
    → camera_ids (map (settle fs) cameras) ≡ camera_ids cameras
ids-settle fs [] = refl
ids-settle fs (camera ∷ cameras) = cc (settle-id fs camera, ids-settle fs cameras)

-- The ids of the cameras that the plan keeps: the first of them in the order of the query.
abbrev pub kept_ids : Text → List Camera → List Text
kept_ids plan cameras = take (get_plan_limits plan).max_cameras (camera_ids cameras)

cap_cameras-flags :
    (wire : Text → Text) (plan : Text) (cameras : List Camera) (auth : AuthState)
    → let after = (cap_cameras wire plan cameras auth).0 in
      All (HasFlag (kept_ids plan cameras)) after × (camera_ids after ≡ camera_ids cameras)
unfolding cap_cameras
cap_cameras-flags wire plan cameras auth =
    let keep_ids = kept_ids plan cameras in
    let fs = flips keep_ids cameras in
    let written = write_flips-settle fs cameras in
    (
      subst (All (HasFlag keep_ids)) (sym written)
          (settled keep_ids fs cameras (flips-All keep_ids cameras) (flips-cover keep_ids cameras)),
      ap camera_ids written ∙ ids-settle fs cameras,
    )

cap_cameras-again :
    (wire : Text → Text) (plan : Text) (cameras : List Camera) (auth auth₁ : AuthState)
    → let after = (cap_cameras wire plan cameras auth).0 in
      let again = cap_cameras wire plan after auth₁ in
      (again.0 ≡ after) × (again.1 ≡ auth₁) × (again.2.changed ≡ false)
unfolding cap_cameras write_flips
cap_cameras-again wire plan cameras auth auth₁ =
    let after = (cap_cameras wire plan cameras auth).0 in
    let flags = cap_cameras-flags wire plan cameras auth in
    let quiet : flips (kept_ids plan after) after ≡ [] =
      ap (λ ids. flips (take (get_plan_limits plan).max_cameras ids) after) flags.1
      ∙ flips_none (kept_ids plan cameras) after flags.0 in
    (ap (λ fs. write_flips fs after) quiet, rw quiet refl, ap (λ fs. not (is_empty fs)) quiet)

module _ (s : Settings) (local_auth : Bool) (parse_past_due_at : Text → Option ℤ)
    (wire : Text → Text) (org_id : Text) where
  open s use {Db}

  -- Afterwards each camera is disabled exactly when it is not among the first that the plan, read
  -- with the cache bypassed, allows; and the rows are the same cameras in the same order.
  pub enforce_camera_cap-flags :
      (c : Caches) (db : Db) (t : Times) (others : Others Db) (answer : Option (List Item))
      (cameras : List Camera) (auth : AuthState)
      → let plan =
          (effective_plan_for_caps s local_auth parse_past_due_at c db org_id false t others
            answer).2 in
        let after =
          (enforce_camera_cap s local_auth parse_past_due_at wire c db org_id t others answer
            cameras auth).2 in
        All (HasFlag (kept_ids plan cameras)) after × (camera_ids after ≡ camera_ids cameras)
  unfolding enforce_camera_cap
  enforce_camera_cap-flags c db t others answer cameras auth =
      cap_cameras-flags wire
        (effective_plan_for_caps s local_auth parse_past_due_at c db org_id false t others answer).2
        cameras auth

  -- A second call that finds the same plan writes nothing, reports no change and spares the
  -- authorisation caches.
  pub enforce_camera_cap-again :
      (c c₁ : Caches) (db db₁ : Db) (t t₁ : Times) (others others₁ : Others Db)
      (answer answer₁ : Option (List Item)) (cameras : List Camera) (auth auth₁ : AuthState)
      → (effective_plan_for_caps s local_auth parse_past_due_at c₁ db₁ org_id false t₁ others₁
          answer₁).2
        ≡ (effective_plan_for_caps s local_auth parse_past_due_at c db org_id false t others
            answer).2
      → let after =
          (enforce_camera_cap s local_auth parse_past_due_at wire c db org_id t others answer
            cameras auth).2 in
        let again =
          enforce_camera_cap s local_auth parse_past_due_at wire c₁ db₁ org_id t₁ others₁ answer₁
            after auth₁ in
        (again.2 ≡ after) × (again.3 ≡ auth₁) × (again.4.changed ≡ false)
  unfolding enforce_camera_cap
  enforce_camera_cap-again c c₁ db db₁ t t₁ others others₁ answer answer₁ cameras auth auth₁ e =
      let plan =
        (effective_plan_for_caps s local_auth parse_past_due_at c db org_id false t others
          answer).2 in
      let after = (cap_cameras wire plan cameras auth).0 in
      subst
        (λ p.
          ((cap_cameras wire p after auth₁).0 ≡ after)
          × ((cap_cameras wire p after auth₁).1 ≡ auth₁)
          × ((cap_cameras wire p after auth₁).2.changed ≡ false))
        (sym e) (cap_cameras-again wire plan cameras auth auth₁)
