-- ===== src/Hls/Segments/Listing.antt =====
-- hls.rs: the candidates of the global pass are the segments that the store holds.
use sentinel_command.Prelude.{
  ℕ, ◌≡◌, refl, sym, ◌∙◌, true, false, List, [], ◌∷◌, ◌++◌, Option, none, some, arith, Bool-cases,
  inl, inr, ◌⊎◌, All,
}
use sentinel_command.Interfaces.{◌==◌}
use sentinel_command.Text.{Text, text_eq, text_beq_iff}
use sentinel_command.Assoc.{Assoc, total, measured, Distinct, AllValues}
use sentinel_command.Assoc
use sentinel_command.OrdMap.{Above}
use sentinel_command.OrdMap
use sentinel_command.Hls.SegmentName.{SegmentName, segment_order, cmp_eq}
use sentinel_command.Hls.Segments.{
  Segment, Bucket, or_default, body_len, Candidate, bucket_candidates, candidates, insert_candidate,
  sort, candidate_leb,
}

abbrev pub len_of : Option Segment → Option ℕ
len_of none = none
len_of (some s) = some (body_len s)

-- The size of a segment of one bucket.
unfoldable pub size_in : Bucket → SegmentName → Option ℕ
size_in bucket filename = len_of (OrdMap.get segment_order filename bucket)

-- The size of a cached segment.
unfoldable pub size_at : Assoc Text Bucket → Text → SegmentName → Option ℕ
size_at cameras camera_id filename = size_in (or_default (Assoc.get camera_id cameras)) filename

-- A candidate speaks of a segment that is there, with its size.
abbrev pub Present : Assoc Text Bucket → Candidate → Type 0
Present cameras c = size_at cameras c.camera_id c.filename ≡ some c.size

-- Of a segment that is still there a candidate has the size.
abbrev pub Fits : Assoc Text Bucket → Candidate → Type 0
Fits cameras c =
    (size_at cameras c.camera_id c.filename ≡ none)
    ⊎ (size_at cameras c.camera_id c.filename ≡ some c.size)

-- A candidate for the segment stands in the list.
abbrev pub Listed : Text → SegmentName → List Candidate → Type 0
Listed camera_id filename [] = ⊥
Listed camera_id filename (c ∷ cs) =
    ((c.camera_id ≡ camera_id) × (c.filename ≡ filename)) ⊎ Listed camera_id filename cs

-- Every cached segment has a candidate.
abbrev pub Covers : Assoc Text Bucket → List Candidate → Type 0
Covers cameras cs =
    (camera_id : Text) (filename : SegmentName) (n : ℕ)
    → size_at cameras camera_id filename ≡ some n
    → Listed camera_id filename cs

module _ (camera_id : Text) (filename : SegmentName) where
  Listed-append_left :
      (cs ds : List Candidate) → Listed camera_id filename cs → Listed camera_id filename (cs ++ ds)
  Listed-append_left [] ds h = absurd h
  Listed-append_left (c ∷ cs) ds (inl h) = inl h
  Listed-append_left (c ∷ cs) ds (inr h) = inr (Listed-append_left cs ds h)

  Listed-append_right :
      (cs ds : List Candidate) → Listed camera_id filename ds → Listed camera_id filename (cs ++ ds)
  Listed-append_right [] ds h = h
  Listed-append_right (c ∷ cs) ds h = inr (Listed-append_right cs ds h)

  Listed-insert :
      (c : Candidate) (cs : List Candidate)
      → Listed camera_id filename (c ∷ cs)
      → Listed camera_id filename (insert_candidate c cs)
  unfolding insert_candidate
  Listed-insert c [] h = h
  Listed-insert c (d ∷ cs) h = ground (arith, Listed-insert c cs)

  pub Listed-sort :
      (cs : List Candidate) → Listed camera_id filename cs → Listed camera_id filename (sort cs)
  unfolding sort
  Listed-sort [] h = h
  Listed-sort (c ∷ cs) (inl h) = Listed-insert c (sort cs) (inl h)
  Listed-sort (c ∷ cs) (inr h) = Listed-insert c (sort cs) (inr (Listed-sort cs h))

  Listed-bucket :
      (bucket : Bucket) (n : ℕ)
      → size_in bucket filename ≡ some n
      → Listed camera_id filename (bucket_candidates camera_id bucket)
  unfolding size_in OrdMap.get bucket_candidates
  Listed-bucket [] n h = absurd (cc)
  Listed-bucket ((f, s) ∷ bucket) n h = ground (arith, Listed-bucket bucket n, cmp_eq f filename)

pub size_at_hit :
    (k camera_id : Text) (bucket : Bucket) (cameras : Assoc Text Bucket) (filename : SegmentName)
    → (k == camera_id) ≡ true
    → size_at ((k, bucket) ∷ cameras) camera_id filename ≡ size_in bucket filename
unfolding size_at Assoc.get
size_at_hit k camera_id bucket cameras filename h = rw h

pub size_at_miss :
    (k camera_id : Text) (bucket : Bucket) (cameras : Assoc Text Bucket) (filename : SegmentName)
    → (k == camera_id) ≡ false
    → size_at ((k, bucket) ∷ cameras) camera_id filename ≡ size_at cameras camera_id filename
unfolding size_at Assoc.get
size_at_miss k camera_id bucket cameras filename h = rw h

size_at_empty : (camera_id : Text) (filename : SegmentName) → size_at [] camera_id filename ≡ none
unfolding size_at size_in Assoc.get OrdMap.get
size_at_empty camera_id filename = refl

pub candidates-Covers : (cameras : Assoc Text Bucket) → Covers cameras (candidates cameras)
unfolding candidates
candidates-Covers [] camera_id filename n h = absurd (cc (size_at_empty camera_id filename))
candidates-Covers ((k, bucket) ∷ cameras) camera_id filename n h =
    elim (Bool-cases (k == camera_id)) [
      | inl hit ↦
          let e : k ≡ camera_id = (text_beq_iff k camera_id).0 hit in
          Listed-append_left camera_id filename (bucket_candidates k bucket) (candidates cameras) (
            rw e (
              Listed-bucket camera_id filename bucket n
                (sym (size_at_hit k camera_id bucket cameras filename hit) ∙ h)))
      | inr miss ↦
          Listed-append_right camera_id filename (bucket_candidates k bucket) (candidates cameras) (
            candidates-Covers cameras camera_id filename n
              (sym (size_at_miss k camera_id bucket cameras filename miss) ∙ h))
    ]

module _ (P : Candidate → Type 0) where
  pub All-append : (cs ds : List Candidate) → All P cs → All P ds → All P (cs ++ ds)
  All-append [] ds a b = b
  All-append (c ∷ cs) ds a b = (a.0, All-append cs ds a.1 b)

  All-insert :
      (c : Candidate) (cs : List Candidate) → P c → All P cs → All P (insert_candidate c cs)
  unfolding insert_candidate
  All-insert c [] p a = (p, tt)
  All-insert c (d ∷ cs) p a = elim (Bool-cases (candidate_leb c d)) [
    | inl lo ↦ rw (lo, insert_candidate) (p, a)
    | inr hi ↦ rw (hi, insert_candidate) (a.0, All-insert c cs p a.1)
  ]

  pub All-sort : (cs : List Candidate) → All P cs → All P (sort cs)
  unfolding sort
  All-sort [] a = tt
  All-sort (c ∷ cs) a = All-insert c (sort cs) a.0 (All-sort cs a.1)
