-- ===== src/Transcription/Replay.antt =====
-- A finished job that the box delivers again, and a failure that it reports for a finished recording.
use limon_backend.Base.{
  ℕ, String, Bool, true, false, some, List, [], ◌∷◌, ◌≡◌, refl, sym, ◌∙◌, arith, ◌==◌, any, get_or,
  text_or, ◌⊎◌, Bool-cases, inl, inr, if◌then◌else◌,
}
use limon_backend.Models.{Recording, Event, Db}
use limon_backend.Models.Table.{find-passes, update_where, find-update_where-some}
use limon_backend.Runtime.Errors.{Result, ok, err}
use limon_backend.Runtime.Ends.{Ends, Ends-weaken}
use limon_backend.Runtime.World.{Env, World, durable}
use limon_backend.Transcriber.{TranscriptJob, is_done, is_failed}
use limon_backend.Transcription.Rows.{
  has_id, links_to, find_recording, find_event_of, update_recordings, set_failed,
}
use limon_backend.Transcription.Collect.{
  CollectionResult, persist, not_done, set_done, describe, same_event, write_description,
}
use limon_backend.Transcription.Stores.{with_transcript, done_not_failed, takes}
use limon_backend.Transcription.Plan.{plan, leave, store, apply_job}
use limon_backend.Transcription.Refines.{Follows, persist-Follows, Follows-carried}

all_done :
    (id : String) (now : ℕ) (rs : List Recording)
    → any (not_done id) (update_where (not_done id) (set_done now) rs) ≡ false
unfolding update_where
all_done id now [] = refl
all_done id now (r ∷ rs) = ground (arith, all_done id now rs)

-- A finished job whose recording and event are there calls for nothing where no row of its id is
-- left to finish.
plan-leave :
    (job : TranscriptJob) (id : String) (now : ℕ) (d : Db) (r : Recording) (event : Event)
    → is_done job ≡ true
    → job.job_id ≡ id
    → find_recording id d ≡ some r
    → find_event_of id d ≡ some event
    → any (not_done id) d.recordings ≡ false
    → plan job now d ≡ leave
unfolding plan
plan-leave job id now d r event finished same found linked h =
    ground (arith, same, found, linked, h, done_not_failed job.status finished)

module _ (job again : TranscriptJob) (same_job : again.job_id ≡ job.job_id)
    (finished : is_done job ≡ true) (finished_again : is_done again ≡ true) (d : Db) (r : Recording)
    (event : Event) (found : find_recording job.job_id d ≡ some r)
    (linked : find_event_of job.job_id d ≡ some event) where
  stored_found :
      (now : ℕ)
      → find_recording job.job_id (with_transcript job event now d)
        ≡ some (if not_done job.job_id r then set_done now r else r)
  unfolding find_recording update_recordings write_description
  stored_found now =
      find-update_where-some (has_id job.job_id) (not_done job.job_id) (set_done now) d.recordings r
        (λ x. refl) found

  stored_linked :
      (now : ℕ)
      → find_event_of job.job_id (with_transcript job event now d)
        ≡ some (if event.id == event.id then describe (text_or job.text "") now event else event)
  unfolding find_event_of write_description update_recordings
  stored_linked now =
      find-update_where-some (links_to job.job_id) (same_event event.id)
        (describe (text_or job.text "") now) d.events event (λ x. refl) linked

  stored_all_done :
      (now : ℕ) → any (not_done job.job_id) (with_transcript job event now d).recordings ≡ false
  unfolding write_description update_recordings
  stored_all_done now = all_done job.job_id now d.recordings

  apply_job-cases :
      (now : ℕ)
      → (apply_job job now d ≡ with_transcript job event now d)
        ⊎ ((apply_job job now d ≡ d) × (any (not_done job.job_id) d.recordings ≡ false))
  unfolding apply_job plan
  apply_job-cases now = elim (Bool-cases (any (not_done job.job_id) d.recordings)) [
    | inl h ↦ inl (ground (arith, h, found, linked, done_not_failed job.status finished))
    | inr h ↦ inr (ground (arith, h, found, linked, done_not_failed job.status finished))
  ]

  replan : (now later : ℕ) → plan again later (apply_job job now d) ≡ leave
  replan now later = elim (apply_job-cases now) [
    | inl e ↦ rw e (
        plan-leave again _ later (with_transcript job event now d) _ _ finished_again same_job
          (stored_found now) (stored_linked now) (stored_all_done now))
    | inr (e, h) ↦ rw e (plan-leave again _ later d _ _ finished_again same_job found linked h)
  ]

Follows-of :
    (e : Env) (w : World) (job : TranscriptJob) (result c : CollectionResult) (b : Bool)
    → w.db ≡ durable w.trace
    → (persist job result e w).0 ≡ ok (b, c)
    → Follows e w (plan job (e.now w.trace) w.db) (b, c) (persist job result e w).1
Follows-of e w job result c b clean answered =
    by_answer (persist job result e w) answered (persist-Follows e w job result clean)
  where
    by_answer :
        (x : Result (Bool × CollectionResult) × World)
        → x.0 ≡ ok (b, c)
        → Ends (Follows e w (plan job (e.now w.trace) w.db)) (λ _ _. ⊥) x
        → Follows e w (plan job (e.now w.trace) w.db) (b, c) x.1
    by_answer (ok (b', c'), w') eq f = ground (arith, f)
    by_answer (err x, w') eq f = absurd f

module _ (job again : TranscriptJob) (result result' c : CollectionResult) (r : Recording)
    (event : Event) (e e' : Env) (w : World) where
  -- Delivery at least once takes effect at most once. A finished job of a known recording with an
  -- event was persisted, from stored rows that the session saw, with the answer that it may be
  -- acknowledged. When a finished job of the same id comes again, at once or in another environment
  -- and with any text, it may be acknowledged too, nothing is raised, and the stored rows stay as
  -- the first one left them.
  pub persist-redelivered :
      w.db ≡ durable w.trace
      → find_recording job.job_id w.db ≡ some r
      → find_event_of job.job_id w.db ≡ some event
      → is_done job ≡ true
      → is_done again ≡ true
      → again.job_id ≡ job.job_id
      → (persist job result e w).0 ≡ ok (true, c)
      → let w' = (persist job result e w).1 in
        Ends
          (λ p w''. (p.0 ≡ true) × (durable w''.trace ≡ durable w'.trace))
          (λ _ _. ⊥)
          (persist again result' e' w')
  unfolding apply_job
  persist-redelivered clean found linked finished finished_again same answered =
      let w' = (persist job result e w).1 in
      let f = Follows-of e w job result c true clean answered in
      let (holds, taken, _) = Follows-carried w.db e w w' _ true c (refl, sym clean) f in
      let rows : w'.db ≡ apply_job job (e.now w.trace) w.db = taken refl in
      let leaves : plan again (e'.now w'.trace) w'.db ≡ leave = rw rows (
        replan job again same finished finished_again w.db r event found linked (e.now w.trace)
          (e'.now w'.trace)) in
      Ends-weaken _ _ _ _ (persist again result' e' w')
        (λ p w'' g. let g' = rw leaves at g in (g'.0, g'.1)) (λ _ _ k. k)
        (persist-Follows e' w' again result' (sym holds.1))

failed_report_plan :
    (job : TranscriptJob) (now : ℕ) (d : Db) (r : Recording)
    → find_recording job.job_id d ≡ some r
    → is_failed job ≡ true
    → (get_or job.error_code "" == "audio_missing") ≡ false
    → plan job now d
      ≡ store (
          update_recordings
            (has_id job.job_id)
            (set_failed (text_or job.error_code "transcription_failed") now)
            d)
unfolding plan
failed_report_plan job now d r found failed other = ground (arith, found)

module _ (job : TranscriptJob) (result : CollectionResult) (r : Recording) (e : Env)
    (w : World) where
  -- The rows with the reported reason on the job's recording.
  abbrev pub failed_rows : Db
  failed_rows =
      let reason = text_or job.error_code "transcription_failed" in
      update_recordings (has_id job.job_id) (set_failed reason (e.now w.trace)) w.db

  failed_found :
      find_recording job.job_id w.db ≡ some r
      → find_recording job.job_id failed_rows
        ≡ some (set_failed (text_or job.error_code "transcription_failed") (e.now w.trace) r)
  unfolding find_recording update_recordings
  failed_found found =
      find-update_where-some (has_id job.job_id) (has_id job.job_id) _ w.db.recordings r (λ x. refl)
        found
      ∙ ground (arith, find-passes (has_id job.job_id) w.db.recordings r found)

  failed_events : failed_rows.events ≡ w.db.events
  unfolding update_recordings
  failed_events = refl

  -- A failure that the box reports for a known recording, for another reason than missing audio, is
  -- stored whatever the recording's state. Nothing is raised; where the database takes the commit,
  -- the job may be acknowledged, and the stored recording, though it was done, is failed with the
  -- reported reason, and the events keep their texts; where it does not, the job may not be
  -- acknowledged, and the stored rows are as they were.
  pub failed_report_lem :
      w.db ≡ durable w.trace
      → find_recording job.job_id w.db ≡ some r
      → is_failed job ≡ true
      → (get_or job.error_code "" == "audio_missing") ≡ false
      → let taken = takes e w.trace failed_rows in
        Ends
          (λ p w'.
            (p.0 ≡ taken)
            × (find_recording job.job_id (durable w'.trace)
                ≡ some (
                    if taken
                    then set_failed
                        (text_or job.error_code "transcription_failed")
                        (e.now w.trace)
                        r
                    else r))
            × ((durable w'.trace).events ≡ w.db.events))
          (λ _ _. ⊥)
          (persist job result e w)
  failed_report_lem clean found failed other =
      Ends-weaken _ _ _ _ (persist job result e w) weaken (λ _ _ k. k)
        (persist-Follows e w job result clean)
    where
      weaken :
          (p : Bool × CollectionResult) (w' : World)
          → Follows e w (plan job (e.now w.trace) w.db) p w'
          → (p.0 ≡ takes e w.trace failed_rows)
            × (find_recording job.job_id (durable w'.trace)
                ≡ some (
                    if takes e w.trace failed_rows
                    then set_failed
                        (text_or job.error_code "transcription_failed")
                        (e.now w.trace)
                        r
                    else r))
            × ((durable w'.trace).events ≡ w.db.events)
      weaken p w' f =
          let g = rw (failed_report_plan job (e.now w.trace) w.db r found failed other) at f in
          elim (Bool-cases (takes e w.trace failed_rows)) [
            | inl t ↦
                let rows : durable w'.trace ≡ failed_rows = g.1 ∙ rw t refl in
                rw t (g.0 ∙ t, rw rows (failed_found found), rw rows failed_events)
            | inr t ↦
                let rows : durable w'.trace ≡ w.db = g.1 ∙ rw t (sym clean) in
                rw t (g.0 ∙ t, rw rows found, rw rows refl)
          ]
