-- ===== src/Hls/Segments/Sizes.antt =====
-- hls.rs, the global pass: which segment stands where, and the list of candidates.
use sentinel_command.Prelude.{
  ℕ, ◌≡◌, refl, sym, ap, subst, ◌∙◌, false, List, [], ◌∷◌, none, some, arith, Bool-cases,
  Option-cases, inl, inr, All,
}
use sentinel_command.Interfaces.{◌==◌, ==-refl}
use sentinel_command.Text.{Text, text_eq, text_beq_iff}
use sentinel_command.Assoc.{Assoc, total, measured, Distinct, AllValues}
use sentinel_command.Assoc
use sentinel_command.OrdMap.{Above}
use sentinel_command.OrdMap
use sentinel_command.OrdMap.Laws as OrdLaws
use sentinel_command.Hls.SegmentName.{SegmentName, segment_order}
use sentinel_command.Hls.Segments.{
  Segment, Bucket, body_len, bucket_bytes, Candidate, bucket_candidates, candidates,
}
use sentinel_command.Hls.Segments.Invariant.{SortedBucket}
use sentinel_command.Hls.Segments.Listing.{
  len_of, size_in, size_at, Present, size_at_hit, size_at_miss, All-append,
}

pub All-map :
    (P Q : Candidate → Type 0) (cs : List Candidate)
    → ((c : Candidate) → P c → Q c)
    → All P cs
    → All Q cs
All-map P Q [] f a = tt
All-map P Q (c ∷ cs) f a = (f c a.0, All-map P Q cs f a.1)

-- What a candidate of one bucket says.
abbrev InBucket : Text → Bucket → Candidate → Type 0
InBucket camera_id bucket c = (c.camera_id ≡ camera_id) × (size_in bucket c.filename ≡ some c.size)

size_in_behind :
    (f : SegmentName) (s : Segment) (bucket : Bucket) (filename : SegmentName) (n : ℕ)
    → Above segment_order f bucket
    → size_in bucket filename ≡ some n
    → size_in ((f, s) ∷ bucket) filename ≡ some n
unfolding size_in
size_in_behind f s bucket filename n a h =
    elim (Option-cases (OrdMap.get segment_order filename bucket)) [
      | inl e ↦ absurd (cc (ap len_of e))
      | inr (t, e) ↦
          ap len_of (
            OrdLaws.get-behind segment_order f filename s bucket
              (OrdLaws.cmp_of_get segment_order f filename t bucket a e))
          ∙ h
    ]

size_in_head :
    (f : SegmentName) (s : Segment) (bucket : Bucket)
    → size_in ((f, s) ∷ bucket) f ≡ some (body_len s)
unfolding size_in OrdMap.get
size_in_head f s bucket = ground (arith, OrdLaws.cmp_refl segment_order f)

bucket_candidates-InBucket :
    (camera_id : Text) (bucket : Bucket)
    → SortedBucket bucket
    → All (InBucket camera_id bucket) (bucket_candidates camera_id bucket)
unfolding bucket_candidates
bucket_candidates-InBucket camera_id [] sorted = tt
bucket_candidates-InBucket camera_id ((f, s) ∷ bucket) sorted = (
  (refl, size_in_head f s bucket),
  All-map (InBucket camera_id bucket) (InBucket camera_id ((f, s) ∷ bucket))
      (bucket_candidates camera_id bucket)
      (λ c h. (h.0, size_in_behind f s bucket c.filename c.size sorted.0 h.1))
      (bucket_candidates-InBucket camera_id bucket sorted.1),
)

-- A camera that is cached has a key of the map.
absent_of_none :
    (k : Text) (cameras : Assoc Text Bucket) (c : Candidate)
    → Assoc.get k cameras ≡ none
    → Present cameras c
    → (k == c.camera_id) ≡ false
unfolding size_at size_in OrdMap.get
absent_of_none k cameras c e p =
    ground (arith, text_beq_iff k c.camera_id, ap (λ (t : Text). Assoc.get t cameras))

pub candidates-Present :
    (cameras : Assoc Text Bucket)
    → Distinct cameras
    → AllValues SortedBucket cameras
    → All (Present cameras) (candidates cameras)
unfolding candidates
candidates-Present [] d a = tt
candidates-Present ((k, bucket) ∷ cameras) d a =
    All-append (Present ((k, bucket) ∷ cameras)) (bucket_candidates k bucket) (candidates cameras)
      (All-map (InBucket k bucket) (Present ((k, bucket) ∷ cameras)) (bucket_candidates k bucket)
        (λ c h.
          size_at_hit k c.camera_id bucket cameras c.filename
            ((text_beq_iff k c.camera_id).1 (sym h.0))
          ∙ h.1)
        (bucket_candidates-InBucket k bucket a.0))
      (All-map (Present cameras) (Present ((k, bucket) ∷ cameras)) (candidates cameras)
        (λ c h.
          size_at_miss k c.camera_id bucket cameras c.filename (absent_of_none k cameras c d.0 h)
          ∙ h)
        (candidates-Present cameras d.1 a.1))

-- A bucket that shows no segment weighs nothing, and so does a store.
empty_bucket_bytes :
    (bucket : Bucket)
    → ((filename : SegmentName) → size_in bucket filename ≡ none)
    → bucket_bytes bucket ≡ 0
unfolding total
empty_bucket_bytes [] h = refl
empty_bucket_bytes ((f, s) ∷ bucket) h = absurd (cc (h f, size_in_head f s bucket))

size_at-none :
    (cameras : Assoc Text Bucket) (camera_id : Text) (filename : SegmentName)
    → Assoc.get camera_id cameras ≡ none
    → size_at cameras camera_id filename ≡ none
unfolding size_at size_in OrdMap.get
size_at-none cameras camera_id filename e = rw e

size_at_tail_none :
    (k : Text) (bucket : Bucket) (cameras : Assoc Text Bucket) (camera_id : Text)
    (filename : SegmentName)
    → Assoc.get k cameras ≡ none
    → size_at ((k, bucket) ∷ cameras) camera_id filename ≡ none
    → size_at cameras camera_id filename ≡ none
size_at_tail_none k bucket cameras camera_id filename d h = elim (Bool-cases (k == camera_id)) [
  | inl hit ↦
      size_at-none cameras camera_id filename
        (subst (λ (t : Text). Assoc.get t cameras ≡ none) ((text_beq_iff k camera_id).0 hit) d)
  | inr miss ↦ sym (size_at_miss k camera_id bucket cameras filename miss) ∙ h
]

pub empty_bytes :
    (cameras : Assoc Text Bucket)
    → Distinct cameras
    → ((camera_id : Text) (filename : SegmentName) → size_at cameras camera_id filename ≡ none)
    → total bucket_bytes cameras ≡ 0
unfolding total
empty_bytes [] d h = refl
empty_bytes ((k, bucket) ∷ cameras) d h = omega (
  arith,
  empty_bucket_bytes bucket (λ f. sym (size_at_hit k k bucket cameras f (==-refl k)) ∙ h k f),
  empty_bytes cameras d.1 (λ c f. size_at_tail_none k bucket cameras c f d.0 (h c f)),
)
