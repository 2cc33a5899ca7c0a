-- ===== src/Hls/Cache/AccessLog.antt =====
-- hls.rs, `access_log_due`: one row per user and camera in an interval.
use sentinel_command.Prelude.{
  ℕ, ◌-◌, ◌≤◌, ◌<◌, ◌≡◌, ap, ◌∙◌, true, false, not, List, [], ◌∷◌, some, arith, if◌then◌else◌, All,
  Bool-cases, inl, inr,
}
use sentinel_command.Interfaces.{◌==◌, ==-refl, pair_eq, pair_beq_iff}
use sentinel_command.Text.{Text, text_eq}
use sentinel_command.Assoc
use sentinel_command.Assoc.Laws as AssocLaws
use sentinel_command.Hls.Cache.{HlsCache, access_log_due, access_log_interval, logged_recently}

-- A request for a stream: the user, the camera and the time.
pub record Poll : Type 0 where
  pub user_id : Text
  pub camera_id : Text
  pub at : ℕ

pub poll : HlsCache → Poll → HlsCache
poll c p = (access_log_due c p.user_id p.camera_id p.at).0

pub polls : HlsCache → List Poll → HlsCache
polls c [] = c
polls c (p ∷ ps) = polls (poll c p) ps

abbrev During : ℕ → Poll → Type 0
During start p = (start ≤ p.at) × (p.at - start < access_log_interval)

get-access_log_due :
    (c : HlsCache) (user_id camera_id : Text) (now : ℕ) (key : Text × Text)
    → Assoc.get key (access_log_due c user_id camera_id now).0.access_logged ≡ (
        if logged_recently (Assoc.get (user_id, camera_id) c.access_logged) now
        then Assoc.get key c.access_logged
        else if (user_id, camera_id) == key
        then some now
        else Assoc.get key c.access_logged)
unfolding access_log_due
get-access_log_due c user_id camera_id now key =
    elim (Bool-cases (logged_recently (Assoc.get (user_id, camera_id) c.access_logged) now)) [
      | inl recent ↦ rw (recent, access_log_due)
      | inr due ↦
          rw (due, access_log_due)
            (AssocLaws.get-insert (user_id, camera_id) key now c.access_logged)
    ]

due-access_log_due :
    (c : HlsCache) (user_id camera_id : Text) (now : ℕ)
    → (access_log_due c user_id camera_id now).1
      ≡ not (logged_recently (Assoc.get (user_id, camera_id) c.access_logged) now)
unfolding access_log_due
due-access_log_due c user_id camera_id now = ground arith

-- A poll within the interval leaves the stamp where it is.
poll-stamp :
    (c : HlsCache) (p : Poll) (user_id camera_id : Text) (start : ℕ)
    → Assoc.get (user_id, camera_id) c.access_logged ≡ some start
    → During start p
    → Assoc.get (user_id, camera_id) (poll c p).access_logged ≡ some start
unfolding poll
poll-stamp c p user_id camera_id start h w =
    let polled : Text × Text = (p.user_id, p.camera_id) in
    let key : Text × Text = (user_id, camera_id) in
    let stamp = get-access_log_due c p.user_id p.camera_id p.at key in
    elim (Bool-cases (polled == key)) [
      | inl same ↦
          stamp
          ∙ ground (
            arith,
            pair_beq_iff polled key,
            ap (λ (k : Text × Text). Assoc.get k c.access_logged),
          )
      | inr other ↦ stamp ∙ ground arith
    ]

polls-stamp :
    (c : HlsCache) (ps : List Poll) (user_id camera_id : Text) (start : ℕ)
    → Assoc.get (user_id, camera_id) c.access_logged ≡ some start
    → All (During start) ps
    → Assoc.get (user_id, camera_id) (polls c ps).access_logged ≡ some start
unfolding polls
polls-stamp c [] user_id camera_id start h w = h
polls-stamp c (p ∷ ps) user_id camera_id start h w =
    polls-stamp (poll c p) ps user_id camera_id start (poll-stamp c p user_id camera_id start h w.0)
      w.1

due-stamp :
    (c : HlsCache) (user_id camera_id : Text) (start : ℕ)
    → (access_log_due c user_id camera_id start).1 ≡ true
    → Assoc.get (user_id, camera_id) (access_log_due c user_id camera_id start).0.access_logged
      ≡ some start
due-stamp c user_id camera_id start h =
    let key : Text × Text = (user_id, camera_id) in
    get-access_log_due c user_id camera_id start key
    ∙ ground (arith, due-access_log_due c user_id camera_id start, ==-refl key)

-- Once a row is due for a user and a camera, no later poll of the next five minutes is, whatever
-- polls of that time, by anyone, stand between.
pub access_log_due_once :
    (c : HlsCache) (user_id camera_id : Text) (start later : ℕ) (ps : List Poll)
    → (access_log_due c user_id camera_id start).1 ≡ true
    → All (During start) ps
    → later - start < access_log_interval
    → (access_log_due
        (polls (access_log_due c user_id camera_id start).0 ps)
        user_id
        camera_id
        later).1
      ≡ false
access_log_due_once c user_id camera_id start later ps due w l =
    let key : Text × Text = (user_id, camera_id) in
    let after = polls (access_log_due c user_id camera_id start).0 ps in
    let stamp =
      polls-stamp (access_log_due c user_id camera_id start).0 ps user_id camera_id start
        (due-stamp c user_id camera_id start due) w in
    due-access_log_due after user_id camera_id later ∙ rw stamp (ground arith)
