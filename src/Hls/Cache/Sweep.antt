-- ===== src/Hls/Cache/Sweep.antt =====
-- hls.rs, `evict_stale_cameras`: which cameras go, and the reconciliation of the byte total.
use sentinel_command.Prelude.{
  ℕ, ◌-◌, ◌<◌, ◌≡◌, refl, ◌∙◌, inl, inr, Bool, true, false, List, [], ◌∷◌, Option, none, some,
  arith, Bool-cases, if◌then◌else◌, ltb, ◌&&◌, ◌↔◌,
}
use sentinel_command.Text.{Text, text_eq, text_beq_iff}
use sentinel_command.Assoc.{Assoc, total, Distinct, AllValues, member}
use sentinel_command.Assoc
use sentinel_command.Assoc.Laws as AssocLaws
use sentinel_command.Hls.Segments.{Bucket, recompute_bytes}
use sentinel_command.Hls.Segments.Invariant.{SortedBucket, IsConsistent}
use sentinel_command.Hls.Cache.{
  HlsCache, is_stale, stale_cameras, evict_stale_cameras, stale_camera_age,
}
use sentinel_command.Hls.Cache.Cleanup.{Forgotten, SameFor}

abbrev stale_option : ℕ → Option Bucket → Bool
stale_option cutoff none = false
stale_option cutoff (some bucket) = is_stale cutoff bucket

member-absent :
    (cutoff : ℕ) (camera_id : Text) (cameras : Assoc Text Bucket)
    → Assoc.get camera_id cameras ≡ none
    → member camera_id (stale_cameras cutoff cameras) ≡ false
unfolding member stale_cameras Assoc.get
member-absent cutoff camera_id [] e = refl
member-absent cutoff camera_id ((k, bucket) ∷ cameras) e =
    ground (arith, member-absent cutoff camera_id cameras)

-- The list holds exactly the cameras whose bucket is stale.
member-stale_cameras :
    (cutoff : ℕ) (camera_id : Text) (cameras : Assoc Text Bucket)
    → Distinct cameras
    → member camera_id (stale_cameras cutoff cameras)
      ≡ stale_option cutoff (Assoc.get camera_id cameras)
unfolding member stale_cameras Assoc.get
member-stale_cameras cutoff camera_id [] d = refl
member-stale_cameras cutoff camera_id ((k, bucket) ∷ cameras) d = ground (
  arith,
  member-stale_cameras cutoff camera_id cameras d.1,
  text_beq_iff k camera_id,
  member-absent cutoff k cameras d.0,
)

-- No segment of the bucket is as young as the cutoff.
abbrev pub AllBefore : ℕ → Bucket → Type 0
AllBefore cutoff [] = Unit
AllBefore cutoff ((filename, (body, ts)) ∷ bucket) = (ts < cutoff) × AllBefore cutoff bucket

is_stale-cons :
    (cutoff ts : ℕ) (filename body : Text) (bucket : Bucket)
    → is_stale cutoff ((filename, (body, ts)) ∷ bucket) ≡ (ltb ts cutoff && is_stale cutoff bucket)
unfolding is_stale
is_stale-cons cutoff ts filename body [] = ground arith
is_stale-cons cutoff ts filename body ((f, (b, t)) ∷ bucket) = ground arith

pub is_stale_iff :
    (cutoff : ℕ) (bucket : Bucket) → (is_stale cutoff bucket ≡ true) ↔ AllBefore cutoff bucket
is_stale_iff cutoff [] = (λ _. tt, λ _. unfold is_stale in refl)
is_stale_iff cutoff ((filename, (body, ts)) ∷ bucket) =
    ground (arith, is_stale-cons cutoff ts filename body bucket, is_stale_iff cutoff bucket)

-- A camera's bucket, if it has one, holds nothing as young as the cutoff.
abbrev pub HasOnlyBefore : ℕ → Option Bucket → Type 0
HasOnlyBefore cutoff none = ⊥
HasOnlyBefore cutoff (some bucket) = AllBefore cutoff bucket

stale_option-true :
    (cutoff : ℕ) (o : Option Bucket) → HasOnlyBefore cutoff o → stale_option cutoff o ≡ true
stale_option-true cutoff none h = absurd h
stale_option-true cutoff (some bucket) h = (is_stale_iff cutoff bucket).1 h

stale_option-false :
    (cutoff : ℕ) (o : Option Bucket) → ¬ HasOnlyBefore cutoff o → stale_option cutoff o ≡ false
stale_option-false cutoff none h = refl
stale_option-false cutoff (some bucket) h = elim (Bool-cases (is_stale cutoff bucket)) [
  | inl stale ↦ absurd (h ((is_stale_iff cutoff bucket).0 stale))
  | inr young ↦ young
]

get-remove_all_if {ℓ} :
    {V : Type ℓ} (ks : List Text) (k : Text) (m : Assoc Text V) (b : Bool)
    → member k ks ≡ b
    → Assoc.get k (Assoc.remove_all ks m) ≡ (if b then none else Assoc.get k m)
get-remove_all_if ks k m b h = AssocLaws.get-remove_all ks k m ∙ rw h

module _ (c : HlsCache) (now : ℕ) (d : Distinct c.segments.cameras) where
  abbrev cutoff : ℕ
  cutoff = now - stale_camera_age

  sweep-member :
      (k : Text) (b : Bool)
      → stale_option cutoff (Assoc.get k c.segments.cameras) ≡ b
      → member k (stale_cameras cutoff c.segments.cameras) ≡ b
  sweep-member k b h = member-stale_cameras cutoff k c.segments.cameras d ∙ h

  sweep-Forgotten :
      (k : Text)
      → HasOnlyBefore cutoff (Assoc.get k c.segments.cameras)
      → Forgotten k (evict_stale_cameras c now)
  unfolding evict_stale_cameras
  sweep-Forgotten k h =
      let stale = stale_cameras cutoff c.segments.cameras in
      let m = sweep-member k true (stale_option-true cutoff _ h) in
      record {
        segments = get-remove_all_if stale k c.segments.cameras true m;
        playlist = get-remove_all_if stale k c.playlists true m;
        updates = get-remove_all_if stale k c.playlist_updates true m;
        playlist_flag = get-remove_all_if stale k c.first_playlist_logged true m;
        stream_flag = get-remove_all_if stale k c.first_stream_get_logged true m;
      }

  sweep-SameFor :
      (k : Text)
      → ¬ HasOnlyBefore cutoff (Assoc.get k c.segments.cameras)
      → SameFor k c (evict_stale_cameras c now)
  unfolding evict_stale_cameras
  sweep-SameFor k h =
      let stale = stale_cameras cutoff c.segments.cameras in
      let m = sweep-member k false (stale_option-false cutoff _ h) in
      record {
        segments = get-remove_all_if stale k c.segments.cameras false m;
        playlist = get-remove_all_if stale k c.playlists false m;
        updates = get-remove_all_if stale k c.playlist_updates false m;
        playlist_flag = get-remove_all_if stale k c.first_playlist_logged false m;
        stream_flag = get-remove_all_if stale k c.first_stream_get_logged false m;
      }

sweep-IsConsistent :
    (c : HlsCache) (now : ℕ)
    → Distinct c.segments.cameras
    → AllValues SortedBucket c.segments.cameras
    → IsConsistent (evict_stale_cameras c now).segments
unfolding evict_stale_cameras recompute_bytes
sweep-IsConsistent c now d s = record {
  distinct = AssocLaws.remove_all-Distinct _ c.segments.cameras d;
  sorted = AssocLaws.remove_all-AllValues SortedBucket _ c.segments.cameras s;
  counted = refl;
}

-- What the sweep promises at a time.
pub record Swept (c : HlsCache) (now : ℕ) (out : HlsCache) : Type 0 where
  pub drops :
      (k : Text)
      → HasOnlyBefore (now - stale_camera_age) (Assoc.get k c.segments.cameras)
      → Forgotten k out
  pub keeps :
      (k : Text)
      → ¬ HasOnlyBefore (now - stale_camera_age) (Assoc.get k c.segments.cameras)
      → SameFor k c out
  pub consistent : IsConsistent out.segments
  pub stamps : out.access_logged ≡ c.access_logged

-- The sweep forgets the segments, the playlist, its counter and the two flags of exactly the cameras
-- with a bucket and no segment of the last minute, leaves these of the others as they were, makes
-- the byte total exact whatever it was before, and leaves the access log's stamps alone.
pub evict_stale_cameras-Swept :
    (c : HlsCache) (now : ℕ)
    → Distinct c.segments.cameras
    → AllValues SortedBucket c.segments.cameras
    → Swept c now (evict_stale_cameras c now)
evict_stale_cameras-Swept c now d s = record {
  drops = sweep-Forgotten c now d;
  keeps = sweep-SameFor c now d;
  consistent = sweep-IsConsistent c now d s;
  stamps = unfold evict_stale_cameras in refl;
}
