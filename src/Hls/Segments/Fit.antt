-- ===== src/Hls/Segments/Fit.antt =====
-- hls.rs, `evict_global_oldest` and `push_segment`: after a push the cache fits.
use native.Mathlib.Nat.{le_refl, le_trans}
use sentinel_command.Prelude.{
  ℕ, ◌+◌, ◌-◌, ◌≤◌, ◌≡◌, refl, sym, ap, ◌∙◌, true, List, [], ◌∷◌, none, length, arith, Bool-cases,
  Option-cases, inl, inr, ◌⊎◌, All, length-drop,
}
use sentinel_command.Prelude.Int.{ℤ, pos, leb_ℤ, ◌≤ℤ◌}
use sentinel_command.Interfaces.{==-refl}
use sentinel_command.Text.{Text, text_eq}
use sentinel_command.Assoc.{Assoc, total}
use sentinel_command.Assoc
use sentinel_command.Hls.SegmentName.{SegmentName}
use sentinel_command.Hls.Segments.{
  Bytes, Bucket, SegmentStore, or_default, Candidate, insert_segment, segment_count, push_segment,
  candidates, sort, evict_candidate, evict_loop, evict_global_oldest, low_water, evict_per_camera,
}
use sentinel_command.Hls.Segments.Invariant.{
  IsConsistent, insert_segment-IsConsistent, evict_per_camera-IsConsistent, get-evict_per_camera,
  evict_fitting,
}
use sentinel_command.Hls.Segments.Sizes.{candidates-Present, All-map, empty_bytes}
use sentinel_command.Hls.Segments.Listing.{All-sort}
use sentinel_command.Hls.Segments.Listing.{candidates-Covers}
use sentinel_command.Hls.Segments.Listing.{Listed-sort}
use sentinel_command.Hls.Segments.Listing.{Covers}
use sentinel_command.Hls.Segments.Listing.{Fits}
use sentinel_command.Hls.Segments.Listing.{Present}
use sentinel_command.Hls.Segments.Listing.{size_at}
use sentinel_command.Hls.Segments.Eviction.{Takes, evict_candidate-Takes}

-- A smaller store: its segments are among the old ones, unchanged, and no bucket grew.
pub record Shrinks (before after : SegmentStore) : Type 0 where
  pub kept :
      (camera_id : Text) (filename : SegmentName)
      → (size_at after.cameras camera_id filename ≡ none)
        ⊎ (size_at after.cameras camera_id filename ≡ size_at before.cameras camera_id filename)
  pub shorter :
      (camera_id : Text)
      → length (or_default (Assoc.get camera_id after.cameras))
        ≤ length (or_default (Assoc.get camera_id before.cameras))

Shrinks-refl : (store : SegmentStore) → Shrinks store store
Shrinks-refl store = record { kept = λ k f. inr refl; shorter = λ k. le_refl _ }

Shrinks-trans : (a b c : SegmentStore) → Shrinks a b → Shrinks b c → Shrinks a c
Shrinks-trans a b c p q = record {
  kept = λ k f. ground (arith, p.kept k f, q.kept k f);
  shorter = λ k. le_trans (q.shorter k) (p.shorter k);
}

Takes-Shrinks : (c : Candidate) (a b : SegmentStore) → Takes c a b → Shrinks a b
Takes-Shrinks c a b t = record { kept = λ k f. ground (arith, t.others k f); shorter = t.shorter }

module _ (c : Candidate) (a b : SegmentStore) (t : Takes c a b) where
  Takes-Fits : (d : Candidate) → Fits a.cameras d → Fits b.cameras d
  Takes-Fits d h = ground (arith, t.others d.camera_id d.filename)

  Takes-All : (cs : List Candidate) → All (Fits a.cameras) cs → All (Fits b.cameras) cs
  Takes-All cs = All-map (Fits a.cameras) (Fits b.cameras) cs Takes-Fits

  Takes-Covers : (cs : List Candidate) → Covers a.cameras (c ∷ cs) → Covers b.cameras cs
  Takes-Covers cs covers k f n h = elim (t.others k f) [
    | inl (_, _, none_left) ↦ absurd (cc)
    | inr same ↦ elim (covers k f n (sym same ∙ h)) [
      | inr listed ↦ listed
      | inl (p, q) ↦ absurd (
          cc (
            t.gone,
            ap (λ (x : Text). size_at b.cameras x c.filename) p,
            ap (λ (x : Text). size_at b.cameras k x) q,
          ))
    ]
  ]

-- Nothing is left without a candidate.
no_candidates :
    (cameras : Assoc Text Bucket)
    → Covers cameras []
    → (k : Text) (f : SegmentName) → size_at cameras k f ≡ none
no_candidates cameras covers k f = elim (Option-cases (size_at cameras k f)) [
  | inl e ↦ e
  | inr (n, e) ↦ absurd (covers k f n e)
]

-- What the loop gives: a consistent, smaller store that is at the low water or empty.
record Outcome (low : ℤ) (before after : SegmentStore) : Type 0 where
  consistent : IsConsistent after
  shrinks : Shrinks before after
  fits : (leb_ℤ after.byte_total low ≡ true) ⊎ (after.byte_total ≡ pos 0)

evict_loop_lem :
    (low : ℤ) (cs : List Candidate) (store : SegmentStore) (evicted : ℕ)
    → IsConsistent store
    → All (Fits store.cameras) cs
    → Covers store.cameras cs
    → Outcome low store (evict_loop low cs store evicted).0
unfolding evict_loop
evict_loop_lem low [] store evicted v fits covers = record {
  consistent = v;
  shrinks = Shrinks-refl store;
  fits = inr (
      v.counted
      ∙ ap pos (empty_bytes store.cameras v.distinct (no_candidates store.cameras covers)));
}
evict_loop_lem low (c ∷ cs) store evicted v fits covers =
    let t = evict_candidate-Takes c store v fits.0 in
    let rest =
      evict_loop_lem low cs (evict_candidate c store).0 (evicted + (evict_candidate c store).1)
        t.consistent (Takes-All c store _ t cs fits.1) (Takes-Covers c store _ t cs covers) in
    elim (Bool-cases (leb_ℤ store.byte_total low)) [
      | inl done ↦
          rw (done, evict_loop)
            (record { consistent = v; shrinks = Shrinks-refl store; fits = inl done })
      | inr more ↦
          rw (more, evict_loop)
            (record {
              consistent = rest.consistent;
              shrinks = Shrinks-trans store _ _ (Takes-Shrinks c store _ t) rest.shrinks;
              fits = rest.fits;
            })
    ]

low_water-le : (m : ℕ) (bytes : ℤ) → leb_ℤ bytes (low_water (pos m)) ≡ true → bytes ≤ℤ pos m
unfolding low_water
low_water-le m bytes h = ground arith

-- What a pass over the whole cache gives.
pub record Fitted (max_total_bytes : ℕ) (before after : SegmentStore) : Type 0 where
  pub consistent : IsConsistent after
  pub shrinks : Shrinks before after
  pub bounded : after.byte_total ≤ℤ pos max_total_bytes

evict_loop-Fitted :
    (store : SegmentStore) (m : ℕ)
    → IsConsistent store
    → Fitted m store (evict_loop (low_water (pos m)) (sort (candidates store.cameras)) store 0).0
evict_loop-Fitted store m v =
    let listed = sort (candidates store.cameras) in
    let fits = All-sort (Fits store.cameras) (candidates store.cameras) (
      All-map (Present store.cameras) (Fits store.cameras) (candidates store.cameras) (λ c p. inr p)
        (candidates-Present store.cameras v.distinct v.sorted)) in
    let out = evict_loop_lem (low_water (pos m)) listed store 0 v fits (λ k f n h.
      Listed-sort k f (candidates store.cameras) (candidates-Covers store.cameras k f n h)) in
    record {
      consistent = out.consistent;
      shrinks = out.shrinks;
      bounded = elim out.fits [
        | inl low ↦ low_water-le m _ low
        | inr zero_left ↦ rw zero_left (omega arith)
      ];
    }

pub evict_global_oldest-Fitted :
    (store : SegmentStore) (m : ℕ)
    → IsConsistent store
    → Fitted m store (evict_global_oldest store (pos m)).0
unfolding evict_global_oldest
evict_global_oldest-Fitted store m v = elim (Bool-cases (leb_ℤ store.byte_total (pos m))) [
  | inl under ↦
      rw under (record { consistent = v; shrinks = Shrinks-refl store; bounded = ground arith })
  | inr over ↦ rw over (evict_loop-Fitted store m v)
]

trimmed_length :
    (store : SegmentStore) (camera_id : Text) (max_per_camera : ℕ)
    → IsConsistent store
    → length
        (or_default (Assoc.get camera_id (evict_per_camera store camera_id max_per_camera).cameras))
      ≤ max_per_camera
trimmed_length store camera_id max_per_camera v =
    elim (Option-cases (Assoc.get camera_id store.cameras)) [
      | inl e ↦
          rw (evict_fitting store camera_id max_per_camera (rw e (omega arith)))
            (rw e (omega arith))
      | inr (bucket, e) ↦ ground (
        arith,
        get-evict_per_camera store camera_id camera_id max_per_camera bucket v e,
        ==-refl camera_id,
        length-drop (length bucket - max_per_camera) bucket,
      )
    ]

-- What a push leaves behind: a consistent store under both caps.
pub record Pushed (camera_id : Text) (max_per_camera max_total_bytes : ℕ) (out : SegmentStore × ℕ)
    : Type 0 where
  pub consistent : IsConsistent out.0
  pub bytes_bounded : out.0.byte_total ≤ℤ pos max_total_bytes
  pub count_bounded : out.1 ≤ max_per_camera
  pub count_exact : out.1 ≡ segment_count out.0 camera_id

-- From a consistent store, a push leaves a consistent store whose byte total is the sum of what it
-- holds and at most the cap, and reports a count that is the camera's and at most its cap.
pub push_segment-Pushed :
    (store : SegmentStore) (camera_id : Text) (filename : SegmentName) (body : Bytes)
    (max_per_camera max_total_bytes now : ℕ)
    → IsConsistent store
    → Pushed camera_id max_per_camera max_total_bytes
        (push_segment store camera_id filename body max_per_camera (pos max_total_bytes) now)
unfolding push_segment segment_count
push_segment-Pushed store camera_id filename body max_per_camera max_total_bytes now v =
    let inserted = insert_segment store camera_id filename body now in
    let v₁ = insert_segment-IsConsistent store camera_id filename body now v in
    let trimmed = evict_per_camera inserted camera_id max_per_camera in
    let v₂ = evict_per_camera-IsConsistent inserted camera_id max_per_camera v₁ in
    let fit = evict_global_oldest-Fitted trimmed max_total_bytes v₂ in
    record {
      consistent = fit.consistent;
      bytes_bounded = fit.bounded;
      count_bounded =
          le_trans (fit.shrinks.shorter camera_id)
            (trimmed_length inserted camera_id max_per_camera v₁);
      count_exact = refl;
    }
