-- ===== src/Hls/Segments/Without.antt =====
-- hls.rs, `evict_candidate`: what is left without one segment.
use sentinel_command.Prelude.{
  ◌+◌, ◌≤◌, ◌≡◌, refl, sym, ap, ◌∙◌, true, [], ◌∷◌, none, some, length, arith, Bool-cases, inl, inr,
  ◌⊎◌, if◌then◌else◌,
}
use sentinel_command.Prelude.Int.{pos, ◌-ℤ◌}
use sentinel_command.Interfaces.{◌==◌, ==-refl}
use sentinel_command.Text.{Text, text_eq, text_beq_iff, is_empty}
use sentinel_command.Assoc.{Assoc, total, measured, Distinct, AllValues}
use sentinel_command.Assoc
use sentinel_command.Assoc.Laws as AssocLaws
use sentinel_command.OrdMap
use sentinel_command.OrdMap.Laws as OrdLaws
use sentinel_command.Hls.SegmentName.{SegmentName, segment_order}
use sentinel_command.Hls.Segments.{
  Segment, Bucket, SegmentStore, or_default, body_len, bucket_bytes, Candidate, evict_candidate,
}
use sentinel_command.Hls.Segments.Invariant.{SortedBucket}
use sentinel_command.Hls.Segments.Listing.{size_at}
use sentinel_command.Hls.Segments.Listing.{size_in}
use sentinel_command.Hls.Segments.Listing.{len_of}

is_empty-bytes : (bucket : Bucket) → is_empty bucket ≡ true → bucket_bytes bucket ≡ 0
unfolding total
is_empty-bytes [] h = refl
is_empty-bytes (x ∷ bucket) h = absurd (cc)

-- The cameras after a segment is taken out of a bucket.
abbrev pub without : Candidate → Bucket → Assoc Text Bucket → Assoc Text Bucket
without c bucket cameras =
    let left = OrdMap.remove segment_order c.filename bucket in
    if is_empty left
    then Assoc.remove c.camera_id cameras
    else Assoc.insert c.camera_id left cameras

module _ (c : Candidate) (store : SegmentStore) where
  pub evict_missing :
      Assoc.get c.camera_id store.cameras ≡ none → evict_candidate c store ≡ (store, 0)
  unfolding evict_candidate
  evict_missing e = rw (e, evict_candidate)

  pub evict_gone :
      (bucket : Bucket)
      → Assoc.get c.camera_id store.cameras ≡ some bucket
      → OrdMap.get segment_order c.filename bucket ≡ none
      → evict_candidate c store ≡ (record store { cameras = without c bucket store.cameras }, 0)
  unfolding evict_candidate
  evict_gone bucket e f = rw (e, evict_candidate) (rw f)

  pub evict_found :
      (bucket : Bucket) (segment : Segment)
      → Assoc.get c.camera_id store.cameras ≡ some bucket
      → OrdMap.get segment_order c.filename bucket ≡ some segment
      → evict_candidate c store ≡ (
        record {
          cameras = without c bucket store.cameras;
          byte_total = store.byte_total -ℤ pos c.size;
        },
        1,
      )
  unfolding evict_candidate
  evict_found bucket segment e f = rw (e, evict_candidate) (rw f)

module _ (c : Candidate) (bucket : Bucket) (cameras : Assoc Text Bucket) where
  or_default-without :
      (camera_id : Text)
      → or_default (Assoc.get camera_id (without c bucket cameras)) ≡ (
          if c.camera_id == camera_id
          then OrdMap.remove segment_order c.filename bucket
          else or_default (Assoc.get camera_id cameras))
  or_default-without camera_id = ground (
    arith,
    AssocLaws.get-remove c.camera_id camera_id cameras,
    AssocLaws.get-insert c.camera_id camera_id (OrdMap.remove segment_order c.filename bucket)
        cameras,
  )

  pub without-Distinct : Distinct cameras → Distinct (without c bucket cameras)
  without-Distinct d =
      elim (Bool-cases (is_empty (OrdMap.remove segment_order c.filename bucket))) [
        | inl e ↦ rw e (AssocLaws.remove-Distinct c.camera_id cameras d)
        | inr n ↦ rw n (AssocLaws.insert-Distinct c.camera_id _ cameras d)
      ]

  pub without-Sorted :
      SortedBucket bucket
      → AllValues SortedBucket cameras
      → AllValues SortedBucket (without c bucket cameras)
  without-Sorted s a =
      elim (Bool-cases (is_empty (OrdMap.remove segment_order c.filename bucket))) [
        | inl e ↦ rw e (AssocLaws.remove-AllValues SortedBucket c.camera_id cameras a)
        | inr n ↦ rw n (
            AssocLaws.insert-AllValues SortedBucket c.camera_id _ cameras
              (OrdLaws.remove-Sorted segment_order c.filename bucket s) a)
      ]

  pub without-bytes :
      Distinct cameras
      → Assoc.get c.camera_id cameras ≡ some bucket
      → total bucket_bytes (without c bucket cameras)
          + measured body_len (OrdMap.get segment_order c.filename bucket)
        ≡ total bucket_bytes cameras
  without-bytes d e =
      let taken = OrdLaws.total-remove segment_order body_len c.filename bucket in
      elim (Bool-cases (is_empty (OrdMap.remove segment_order c.filename bucket))) [
        | inl h ↦ rw h (
            omega (
              arith,
              taken,
              is_empty-bytes _ h,
              rw e at (AssocLaws.total-remove bucket_bytes c.camera_id cameras d),
            ))
        | inr h ↦ rw h (
            omega (
              arith,
              taken,
              rw e at (
                  AssocLaws.total-insert bucket_bytes c.camera_id
                    (OrdMap.remove segment_order c.filename bucket) cameras),
            ))
      ]

  -- What the other segments weigh stays, and the segment itself is gone.
  pub size_at-without :
      SortedBucket bucket
      → Assoc.get c.camera_id cameras ≡ some bucket
      → (camera_id : Text) (filename : SegmentName)
      → ((c.camera_id ≡ camera_id)
          × (c.filename ≡ filename)
          × (size_at (without c bucket cameras) camera_id filename ≡ none))
        ⊎ (size_at (without c bucket cameras) camera_id filename
            ≡ size_at cameras camera_id filename)
  unfolding size_at size_in
  size_at-without s e camera_id filename =
      let look = λ (b : Bucket). len_of (OrdMap.get segment_order filename b) in
      elim (Bool-cases (c.camera_id == camera_id)) [
        | inr other ↦ inr (
            ap look (
              ◌∙◌ {c = or_default (Assoc.get camera_id cameras)} (or_default-without camera_id)
                (rw other)))
        | inl same ↦
            (let same_id : c.camera_id ≡ camera_id = (text_beq_iff c.camera_id camera_id).0 same in
              let left : or_default (Assoc.get camera_id (without c bucket cameras))
                  ≡ OrdMap.remove segment_order c.filename bucket =
                or_default-without camera_id ∙ rw same in
              let before = ap or_default (sym e ∙ ap (λ (t : Text). Assoc.get t cameras) same_id) in
              elim (Bool-cases (c.filename == filename)) [
                | inl hit ↦
                    (let same_name : c.filename ≡ filename =
                        (text_beq_iff c.filename filename).0 hit in
                      inl (
                        same_id,
                        same_name,
                        ap look left
                            ∙ rw (← same_name) (
                                ap len_of
                                  (OrdLaws.get-remove_self segment_order c.filename bucket s)),
                      ))
                | inr miss ↦ inr (
                    ap look left
                    ∙ ap len_of (
                        OrdLaws.get-remove_ne segment_order c.filename filename bucket s
                          (λ p. cc ((text_beq_iff c.filename filename).1 p)))
                    ∙ ap look before)
              ])
      ]

  pub size_at-without_self :
      SortedBucket bucket → size_at (without c bucket cameras) c.camera_id c.filename ≡ none
  unfolding size_at size_in
  size_at-without_self s =
      ap (λ (b : Bucket). len_of (OrdMap.get segment_order c.filename b))
        (◌∙◌ {c = OrdMap.remove segment_order c.filename bucket} (or_default-without c.camera_id)
          (rw (==-refl c.camera_id)))
      ∙ ap len_of (OrdLaws.get-remove_self segment_order c.filename bucket s)

  pub length-without :
      Assoc.get c.camera_id cameras ≡ some bucket
      → (camera_id : Text)
      → length (or_default (Assoc.get camera_id (without c bucket cameras)))
        ≤ length (or_default (Assoc.get camera_id cameras))
  length-without e camera_id = ground (
    arith,
    or_default-without camera_id,
    text_beq_iff c.camera_id camera_id,
    ap (λ (t : Text). Assoc.get t cameras),
    OrdLaws.length-remove-le segment_order c.filename bucket,
  )
