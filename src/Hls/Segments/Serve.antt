-- ===== src/Hls/Segments/Serve.antt =====
-- hls.rs, `push_segment` and `segment`: what a viewer gets after a push.
use sentinel_command.Prelude.{
  ℕ, ◌≤◌, ◌≡◌, sym, ap, subst, ◌∙◌, true, false, Option, none, some, length, arith, if◌then◌else◌,
  ◌≢◌,
}
use sentinel_command.Prelude.Int.{ℤ, leb_ℤ}
use sentinel_command.Interfaces.{◌==◌, ==-refl}
use sentinel_command.Text.{Text, text_eq, text_beq_iff}
use sentinel_command.Assoc.{Assoc, total}
use sentinel_command.Assoc
use sentinel_command.Assoc.Laws as AssocLaws
use sentinel_command.OrdMap
use sentinel_command.OrdMap.Laws as OrdLaws
use sentinel_command.Hls.SegmentName.{SegmentName, segment_order}
use sentinel_command.Hls.Segments.{
  Bytes, Segment, Bucket, SegmentStore, or_default, insert_segment, push_segment,
  evict_global_oldest, segment,
}
use sentinel_command.Hls.Segments.Invariant.{IsConsistent, evict_fitting, or_default-Sorted}

abbrev body_of : Option Segment → Option Bytes
body_of none = none
body_of (some s) = some s.0

segment_lem :
    (store : SegmentStore) (camera_id : Text) (filename : SegmentName)
    → segment store camera_id filename
      ≡ body_of (OrdMap.get segment_order filename (or_default (Assoc.get camera_id store.cameras)))
unfolding segment
segment_lem store camera_id filename = ground arith

module _ (store : SegmentStore) (camera_id : Text) (filename : SegmentName) (body : Bytes)
    (now : ℕ) where
  abbrev old_bucket : Bucket
  old_bucket = or_default (Assoc.get camera_id store.cameras)

  abbrev new_bucket : Bucket
  new_bucket = OrdMap.insert segment_order filename (body, now) old_bucket

  bucket-insert_segment :
      (k : Text)
      → or_default (Assoc.get k (insert_segment store camera_id filename body now).cameras)
        ≡ (if camera_id == k then new_bucket else or_default (Assoc.get k store.cameras))
  unfolding insert_segment
  bucket-insert_segment k =
      ground (arith, AssocLaws.get-insert camera_id k new_bucket store.cameras)

  segment-insert_self :
      segment (insert_segment store camera_id filename body now) camera_id filename ≡ some body
  segment-insert_self =
      segment_lem _ camera_id filename
      ∙ ap (λ (b : Bucket). body_of (OrdMap.get segment_order filename b))
          (◌∙◌ {c = new_bucket} (bucket-insert_segment camera_id) (rw (==-refl camera_id)))
      ∙ ap body_of (OrdLaws.get-insert_self segment_order filename (body, now) old_bucket)

  segment-insert_name :
      (f : SegmentName)
      → IsConsistent store
      → filename ≢ f
      → segment (insert_segment store camera_id filename body now) camera_id f
        ≡ segment store camera_id f
  segment-insert_name f v ne =
      segment_lem _ camera_id f
      ∙ ap (λ (b : Bucket). body_of (OrdMap.get segment_order f b))
          (◌∙◌ {c = new_bucket} (bucket-insert_segment camera_id) (rw (==-refl camera_id)))
      ∙ ap body_of (
          OrdLaws.get-insert_ne segment_order filename f (body, now) old_bucket
            (or_default-Sorted camera_id store.cameras v.sorted) ne)
      ∙ sym (segment_lem store camera_id f)

  segment-insert_camera :
      (k : Text) (f : SegmentName)
      → (camera_id == k) ≡ false
      → segment (insert_segment store camera_id filename body now) k f ≡ segment store k f
  segment-insert_camera k f h =
      segment_lem _ k f
      ∙ ap (λ (b : Bucket). body_of (OrdMap.get segment_order f b))
          (◌∙◌ {c = or_default (Assoc.get k store.cameras)} (bucket-insert_segment k) (rw h))
      ∙ sym (segment_lem store k f)

  -- Room for one more segment of the camera and for the bytes of the body.
  push_fitting :
      (max_per_camera : ℕ) (max_total_bytes : ℤ)
      → length new_bucket ≤ max_per_camera
      → leb_ℤ (insert_segment store camera_id filename body now).byte_total max_total_bytes ≡ true
      → (push_segment store camera_id filename body max_per_camera max_total_bytes now).0
        ≡ insert_segment store camera_id filename body now
  unfolding push_segment evict_global_oldest
  push_fitting max_per_camera max_total_bytes short small =
      let inserted = insert_segment store camera_id filename body now in
      rw
        (evict_fitting inserted camera_id max_per_camera (
          subst (λ (b : Bucket). length b ≤ max_per_camera)
            (sym (◌∙◌ {c = new_bucket} (bucket-insert_segment camera_id) (rw (==-refl camera_id))))
            short))
        (rw small)

  -- A push that stays under both caps serves the body from then on, and every other segment, of
  -- this camera and of others, as before.
  pub segment-push_segment :
      (max_per_camera : ℕ) (max_total_bytes : ℤ)
      → IsConsistent store
      → length new_bucket ≤ max_per_camera
      → leb_ℤ (insert_segment store camera_id filename body now).byte_total max_total_bytes ≡ true
      → let pushed =
          (push_segment store camera_id filename body max_per_camera max_total_bytes now).0 in
        (segment pushed camera_id filename ≡ some body)
        × ((f : SegmentName)
            → filename ≢ f
            → segment pushed camera_id f ≡ segment store camera_id f)
        × ((k : Text) (f : SegmentName) → camera_id ≢ k → segment pushed k f ≡ segment store k f)
  segment-push_segment max_per_camera max_total_bytes v short small =
      let same = push_fitting max_per_camera max_total_bytes short small in
      (
        ap (λ (s : SegmentStore). segment s camera_id filename) same ∙ segment-insert_self,
        λ f ne. ap (λ (s : SegmentStore). segment s camera_id f) same ∙ segment-insert_name f v ne,
        λ k f ne.
            ap (λ (s : SegmentStore). segment s k f) same
            ∙ segment-insert_camera k f (ground (arith, text_beq_iff camera_id k)),
      )
