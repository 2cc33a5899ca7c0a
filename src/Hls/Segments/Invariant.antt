-- ===== src/Hls/Segments/Invariant.antt =====
-- hls.rs, the segment store: the buckets stay sorted and the running byte total stays exact.
use sentinel_command.Prelude.{
  ℕ, ◌<◌, le_or_lt, ◌+◌, ◌-◌, ◌≤◌, ◌≡◌, refl, ap, ◌∙◌, false, [], ◌∷◌, Option, none, some, length,
  take, drop, zero, suc, leb, if◌then◌else◌, arith, Option-cases, inl, inr,
}
use sentinel_command.Prelude.Int.{ℤ, pos, pos_sub, int_laws}
use sentinel_command.Interfaces.{◌==◌}
use sentinel_command.Text.{Text, text_eq, text_beq_iff}
use sentinel_command.Assoc.{Assoc, total, measured, Distinct, AllValues}
use sentinel_command.Assoc
use sentinel_command.Assoc.Laws as AssocLaws
use sentinel_command.OrdMap.{Sorted}
use sentinel_command.OrdMap
use sentinel_command.OrdMap.Laws as OrdLaws
use sentinel_command.Hls.SegmentName.{SegmentName, segment_order}
use sentinel_command.Hls.Segments.{
  Bytes, Segment, Bucket, SegmentStore, or_default, body_len, bucket_bytes, drop_names, keys,
  evict_per_camera, insert_segment,
}

abbrev pub SortedBucket : Bucket → Type 0
SortedBucket = Sorted segment_order

pub record IsConsistent (store : SegmentStore) : Type 0 where
  pub distinct : Distinct store.cameras
  pub sorted : AllValues SortedBucket store.cameras
  pub counted : store.byte_total ≡ pos (total bucket_bytes store.cameras)

pub or_default-Sorted :
    (camera_id : Text) (cameras : Assoc Text Bucket)
    → AllValues SortedBucket cameras
    → SortedBucket (or_default (Assoc.get camera_id cameras))
or_default-Sorted camera_id cameras a = elim (Option-cases (Assoc.get camera_id cameras)) [
  | inl e ↦ rw e tt
  | inr (bucket, e) ↦ rw e (AssocLaws.get-AllValues SortedBucket camera_id bucket cameras a e)
]

-- What a camera's bucket weighs, present or not.
pub measured-or_default :
    (o : Option Bucket) → measured bucket_bytes o ≡ bucket_bytes (or_default o)
unfolding total
measured-or_default none = refl
measured-or_default (some bucket) = refl

-- The byte count of a store after a bucket is put into it.
pub put_bucket_bytes :
    (camera_id : Text) (bucket : Bucket) (cameras : Assoc Text Bucket)
    → total bucket_bytes (Assoc.insert camera_id bucket cameras)
        + bucket_bytes (or_default (Assoc.get camera_id cameras))
      ≡ total bucket_bytes cameras + bucket_bytes bucket
put_bucket_bytes camera_id bucket cameras =
    rw (← measured-or_default (Assoc.get camera_id cameras))
      (AssocLaws.total-insert bucket_bytes camera_id bucket cameras)

insert_segment-counted :
    (store : SegmentStore) (camera_id : Text) (filename : SegmentName) (body : Bytes) (now : ℕ)
    → IsConsistent store
    → (insert_segment store camera_id filename body now).byte_total
      ≡ pos (total bucket_bytes (insert_segment store camera_id filename body now).cameras)
unfolding insert_segment
insert_segment-counted store camera_id filename body now v =
    let bucket = or_default (Assoc.get camera_id store.cameras) in
    let new_bytes = OrdLaws.total-insert segment_order body_len filename (body, now) bucket in
    let new_total =
      put_bucket_bytes camera_id (OrdMap.insert segment_order filename (body, now) bucket)
        store.cameras in
    elim (Option-cases (OrdMap.get segment_order filename bucket)) [
      | inl e ↦ rw (e, v.counted) (omega (int_laws, new_total, rw e at new_bytes))
      | inr (old, e) ↦ rw (e, v.counted) (omega (int_laws, new_total, rw e at new_bytes))
    ]

pub insert_segment-IsConsistent :
    (store : SegmentStore) (camera_id : Text) (filename : SegmentName) (body : Bytes) (now : ℕ)
    → IsConsistent store
    → IsConsistent (insert_segment store camera_id filename body now)
unfolding insert_segment
insert_segment-IsConsistent store camera_id filename body now v = record {
  distinct = AssocLaws.insert-Distinct camera_id _ store.cameras v.distinct;
  sorted =
      AssocLaws.insert-AllValues SortedBucket camera_id _ store.cameras
        (OrdLaws.insert-Sorted segment_order filename (body, now) _
          (or_default-Sorted camera_id store.cameras v.sorted))
        v.sorted;
  counted = insert_segment-counted store camera_id filename body now v;
}

remove_head :
    (filename : SegmentName) (segment : Segment) (bucket : Bucket)
    → OrdMap.remove segment_order filename ((filename, segment) ∷ bucket) ≡ bucket
unfolding OrdMap.remove
remove_head filename segment bucket = ground (arith, OrdLaws.cmp_refl segment_order filename)

get_head :
    (filename : SegmentName) (segment : Segment) (bucket : Bucket)
    → OrdMap.get segment_order filename ((filename, segment) ∷ bucket) ≡ some segment
unfolding OrdMap.get
get_head filename segment bucket = ground (arith, OrdLaws.cmp_refl segment_order filename)

-- The doomed names are those of the first entries, and exactly their bytes leave the total.
pub drop_names_lem :
    (n : ℕ) (bucket : Bucket) (bytes : ℕ)
    → bucket_bytes bucket ≤ bytes
    → drop_names (take n (keys bucket)) bucket (pos bytes)
      ≡ (drop n bucket, pos (bytes - bucket_bytes bucket + bucket_bytes (drop n bucket)))
unfolding drop_names total
drop_names_lem zero bucket bytes h = ground arith
drop_names_lem (suc n) [] bytes h = ground arith
drop_names_lem (suc n) ((filename, segment) ∷ bucket) bytes h =
    rw
      (
        remove_head filename segment bucket,
        get_head filename segment bucket,
        pos_sub bytes (body_len segment) (omega arith),
      )
      (drop_names_lem n bucket (bytes - body_len segment) (omega arith)
        ∙ ap (λ (t : ℕ). (drop n bucket, pos (t + bucket_bytes (drop n bucket)))) (omega arith))

bucket-le-total :
    (camera_id : Text) (bucket : Bucket) (cameras : Assoc Text Bucket)
    → Assoc.get camera_id cameras ≡ some bucket
    → bucket_bytes bucket ≤ total bucket_bytes cameras
bucket-le-total camera_id bucket cameras e =
    rw e at (AssocLaws.measured-le-total bucket_bytes camera_id cameras)

pub evict_fitting :
    (store : SegmentStore) (camera_id : Text) (max_per_camera : ℕ)
    → length (or_default (Assoc.get camera_id store.cameras)) ≤ max_per_camera
    → evict_per_camera store camera_id max_per_camera ≡ store
unfolding evict_per_camera
evict_fitting store camera_id max_per_camera h = ground arith

-- The store after the pass over a bucket that is too long.
pub evict_over :
    (store : SegmentStore) (camera_id : Text) (max_per_camera : ℕ) (bucket : Bucket)
    → IsConsistent store
    → Assoc.get camera_id store.cameras ≡ some bucket
    → max_per_camera < length bucket
    → let newest = drop (length bucket - max_per_camera) bucket in
      evict_per_camera store camera_id max_per_camera ≡ record {
        cameras = Assoc.insert camera_id newest store.cameras;
        byte_total =
            pos (total bucket_bytes store.cameras - bucket_bytes bucket + bucket_bytes newest);
      }
unfolding evict_per_camera
evict_over store camera_id max_per_camera bucket v e h =
    let over : leb (length bucket) max_per_camera ≡ false = ground arith in
    rw (e, evict_per_camera)
      (rw (over, v.counted)
        (ap
          (λ (p : Bucket × ℤ). record {
            cameras = Assoc.insert camera_id p.0 store.cameras;
            byte_total = p.1;
          })
          (drop_names_lem (length bucket - max_per_camera) bucket _
            (bucket-le-total camera_id bucket store.cameras e))))

evict_over-IsConsistent :
    (store : SegmentStore) (camera_id : Text) (max_per_camera : ℕ) (bucket : Bucket)
    → IsConsistent store
    → Assoc.get camera_id store.cameras ≡ some bucket
    → max_per_camera < length bucket
    → IsConsistent (evict_per_camera store camera_id max_per_camera)
evict_over-IsConsistent store camera_id max_per_camera bucket v e h =
    let newest = drop (length bucket - max_per_camera) bucket in
    rw (evict_over store camera_id max_per_camera bucket v e h) (record {
      distinct = AssocLaws.insert-Distinct camera_id newest store.cameras v.distinct;
      sorted =
          AssocLaws.insert-AllValues SortedBucket camera_id newest store.cameras
            (OrdLaws.drop-Sorted segment_order _ bucket
              (AssocLaws.get-AllValues SortedBucket camera_id bucket store.cameras v.sorted e))
            v.sorted;
      counted = ap pos (
          omega (
            arith,
            rw e at (put_bucket_bytes camera_id newest store.cameras),
            bucket-le-total camera_id bucket store.cameras e,
          ));
    })

pub evict_per_camera-IsConsistent :
    (store : SegmentStore) (camera_id : Text) (max_per_camera : ℕ)
    → IsConsistent store
    → IsConsistent (evict_per_camera store camera_id max_per_camera)
evict_per_camera-IsConsistent store camera_id max_per_camera v =
    elim (Option-cases (Assoc.get camera_id store.cameras)) [
      | inl e ↦ rw (evict_fitting store camera_id max_per_camera (rw e (omega arith))) v
      | inr (bucket, e) ↦ elim (le_or_lt (length bucket) max_per_camera) [
        | inl fits ↦ rw (evict_fitting store camera_id max_per_camera (rw e fits)) v
        | inr over ↦ evict_over-IsConsistent store camera_id max_per_camera bucket v e over
      ]
    ]

-- After the per-camera pass the camera keeps exactly its newest `max_per_camera` segments, the
-- last of its bucket in sequence order, and every other camera keeps its bucket.
pub get-evict_per_camera :
    (store : SegmentStore) (camera_id other : Text) (max_per_camera : ℕ) (bucket : Bucket)
    → IsConsistent store
    → Assoc.get camera_id store.cameras ≡ some bucket
    → Assoc.get other (evict_per_camera store camera_id max_per_camera).cameras ≡ (
        if camera_id == other
        then some (drop (length bucket - max_per_camera) bucket)
        else Assoc.get other store.cameras)
get-evict_per_camera store camera_id other max_per_camera bucket v e =
    elim (le_or_lt (length bucket) max_per_camera) [
      | inl fits ↦ rw (evict_fitting store camera_id max_per_camera (rw e fits)) (
          ground (
            arith,
            drop_none fits,
            text_beq_iff camera_id other,
            ap (λ (c : Text). Assoc.get c store.cameras),
          ))
      | inr over ↦
          rw (evict_over store camera_id max_per_camera bucket v e over)
            (AssocLaws.get-insert camera_id other _ store.cameras)
    ]
  where
    drop_none :
        length bucket ≤ max_per_camera → drop (length bucket - max_per_camera) bucket ≡ bucket
    drop_none fits = let z : length bucket - max_per_camera ≡ 0 = omega arith in rw z
