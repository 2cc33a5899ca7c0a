-- ===== src/Hls/Segments/Eviction.antt =====
-- hls.rs, `evict_global_oldest`: the loop over the candidates.
use native.Mathlib.Nat.{le_refl}
use sentinel_command.Prelude.{
  ◌≤◌, ◌≡◌, refl, ap, ◌∙◌, none, some, length, arith, Option-cases, inl, inr, ◌⊎◌,
}
use sentinel_command.Prelude.Int.{ℤ, pos, pos_sub, ◌-ℤ◌}
use sentinel_command.Text.{Text, text_eq}
use sentinel_command.Assoc.{Assoc, total, measured, Distinct, AllValues}
use sentinel_command.Assoc
use sentinel_command.Assoc.Laws as AssocLaws
use sentinel_command.OrdMap
use sentinel_command.Hls.SegmentName.{SegmentName, segment_order}
use sentinel_command.Hls.Segments.{
  Segment, Bucket, SegmentStore, or_default, body_len, bucket_bytes, Candidate, evict_candidate,
}
use sentinel_command.Hls.Segments.Invariant.{SortedBucket, IsConsistent}
use sentinel_command.Hls.Segments.Listing.{Fits}
use sentinel_command.Hls.Segments.Listing.{size_at}
use sentinel_command.Hls.Segments.Listing.{size_in}
use sentinel_command.Hls.Segments.Listing.{len_of}
use sentinel_command.Hls.Segments.Without.{
  without, evict_missing, evict_gone, evict_found, without-Distinct, without-Sorted, without-bytes,
  size_at-without, size_at-without_self, length-without,
}

-- What one round does: the candidate's segment is gone, the others are as they were.
pub record Takes (c : Candidate) (before after : SegmentStore) : Type 0 where
  pub consistent : IsConsistent after
  pub gone : size_at after.cameras c.camera_id c.filename ≡ none
  pub others :
      (camera_id : Text) (filename : SegmentName)
      → ((c.camera_id ≡ camera_id)
          × (c.filename ≡ filename)
          × (size_at after.cameras camera_id filename ≡ none))
        ⊎ (size_at after.cameras camera_id filename ≡ size_at before.cameras camera_id filename)
  pub shorter :
      (camera_id : Text)
      → length (or_default (Assoc.get camera_id after.cameras))
        ≤ length (or_default (Assoc.get camera_id before.cameras))

module _ (c : Candidate) (store : SegmentStore) (v : IsConsistent store) where
  size_at_bucket :
      (bucket : Bucket)
      → Assoc.get c.camera_id store.cameras ≡ some bucket
      → size_at store.cameras c.camera_id c.filename
        ≡ len_of (OrdMap.get segment_order c.filename bucket)
  unfolding size_at size_in
  size_at_bucket bucket e = rw e

  size_at_missing :
      Assoc.get c.camera_id store.cameras ≡ none
      → size_at store.cameras c.camera_id c.filename ≡ none
  unfolding size_at size_in OrdMap.get
  size_at_missing e = rw e

  without-Takes :
      (bucket : Bucket) (bytes : ℤ)
      → Assoc.get c.camera_id store.cameras ≡ some bucket
      → bytes ≡ pos (total bucket_bytes (without c bucket store.cameras))
      → Takes c store (record { cameras = without c bucket store.cameras; byte_total = bytes })
  without-Takes bucket bytes e counted =
      let s = AssocLaws.get-AllValues SortedBucket c.camera_id bucket store.cameras v.sorted e in
      record {
        consistent = record {
          distinct = without-Distinct c bucket store.cameras v.distinct;
          sorted = without-Sorted c bucket store.cameras s v.sorted;
          counted = counted;
        };
        gone = size_at-without_self c bucket store.cameras s;
        others = size_at-without c bucket store.cameras s e;
        shorter = length-without c bucket store.cameras e;
      }

  found-Takes :
      (bucket : Bucket) (segment : Segment)
      → Assoc.get c.camera_id store.cameras ≡ some bucket
      → OrdMap.get segment_order c.filename bucket ≡ some segment
      → body_len segment ≡ c.size
      → Takes c store (record {
        cameras = without c bucket store.cameras;
        byte_total = store.byte_total -ℤ pos c.size;
      })
  found-Takes bucket segment e f h =
      let bytes = rw f at (without-bytes c bucket store.cameras v.distinct e) in
      without-Takes bucket _ e (
        rw (v.counted, pos_sub (total bucket_bytes store.cameras) c.size (omega (arith, bytes)))
          (ap pos (omega (arith, bytes))))

  gone-Takes :
      (bucket : Bucket)
      → Assoc.get c.camera_id store.cameras ≡ some bucket
      → OrdMap.get segment_order c.filename bucket ≡ none
      → Takes c store (record store { cameras = without c bucket store.cameras })
  gone-Takes bucket e f = without-Takes bucket _ e (
      v.counted
      ∙ ap pos (omega (arith, rw f at (without-bytes c bucket store.cameras v.distinct e))))

  pub evict_candidate-Takes : Fits store.cameras c → Takes c store (evict_candidate c store).0
  evict_candidate-Takes fits = elim (Option-cases (Assoc.get c.camera_id store.cameras)) [
    | inl e ↦ rw (evict_missing c store e) (record {
      consistent = v;
      gone = size_at_missing e;
      others = λ k f. inr refl;
      shorter = λ k. le_refl _;
    })
    | inr (bucket, e) ↦ elim (Option-cases (OrdMap.get segment_order c.filename bucket)) [
      | inl f ↦ rw (evict_gone c store bucket e f) (gone-Takes bucket e f)
      | inr (segment, f) ↦
          rw (evict_found c store bucket segment e f)
            (found-Takes bucket segment e f (ground (arith, size_at_bucket bucket e)))
    ]
  ]
