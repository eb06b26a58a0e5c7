-- ===== src/Transcription/Stores.antt =====
-- What `_persist` stores for a transcript, and when it stores nothing.
use limon_backend.Base.{
  ℕ, ◌+◌, ◌<◌, String, Bool, true, false, not, some, List, [], ◌∷◌, ◌≡◌, ap, ◌&&◌, ◌==◌, eq_iff,
  eq_refl, arith, text_or, count, all,
}
use limon_backend.Models.{Recording, Event, Db}
use limon_backend.Models.Keys.{AreKeyed, count_where-keyed}
use limon_backend.Models.Table.{find, find-passes, count_where, count_where-pos, update_where}
use limon_backend.Runtime.Errors.{ok}
use limon_backend.Runtime.World.{
  Env, World, ◌>>=◌, try, Trace, durable, modify, commit_session, rollback, emit, columns_fit,
  event_fits,
}
use limon_backend.TaskQueue.{enqueue_tagging, create_cloud_task}
use limon_backend.Tagging.Dispatch.{dispatch_tagging, run_locally}
use limon_backend.Transcriber.{TranscriptJob, is_done}
use limon_backend.Transcription.Rows.{
  has_id, links_to, find_recording, find_event_of, update_recordings,
}
use limon_backend.Transcription.Collect.{
  CollectionResult, persist, persist_body, persist_found, persist_transcript, store_transcript,
  claim_done, not_done, set_done, same_event, describe, write_description, tag_if_untagged,
  ignore_task_queue_error, give_up, is_done_state,
}

-- Starting the tagging never raises, and leaves the session and the stored rows as they are.
pub tagging_harmless :
    (event : Event) (e : Env) (w : World)
    → ((tag_if_untagged event e w).0 ≡ ok tt)
      × ((tag_if_untagged event e w).1.db ≡ w.db)
      × (durable (tag_if_untagged event e w).1.trace ≡ durable w.trace)
unfolding tag_if_untagged ignore_task_queue_error dispatch_tagging run_locally enqueue_tagging
    create_cloud_task emit try ◌>>=◌ durable
tagging_harmless event e w = ground arith

pub done_not_failed : (s : String) → (s == "done") ≡ true → (s == "failed") ≡ false
done_not_failed s h = rw ((eq_iff s "done").0 h)

-- The rows with the transcript of a job: the recording is done and its event is described.
abbrev pub with_transcript : TranscriptJob → Event → ℕ → Db → Db
with_transcript job event now d =
    write_description event.id (text_or job.text "") now
      (update_recordings (not_done job.job_id) (set_done now) d)

-- The database takes a commit of these rows.
abbrev pub takes : Env → Trace → Db → Bool
takes e t d = not (e.commit_fails t) && not (e.enforces_lengths && not (columns_fit d))

text_or_empty : (s : String) → text_or (some s) "" ≡ s
text_or_empty s = ground (arith, eq_iff s "")

abbrev pub recording_id : Recording → String
recording_id r = r.id

module _ (job : TranscriptJob) (result : CollectionResult) (r : Recording) (event : Event) (e : Env)
    (w : World) (found : find_recording job.job_id w.db ≡ some r)
    (linked : find_event_of job.job_id w.db ≡ some event) (finished : is_done job ≡ true) where
  claimed_some :
      is_done_state r.state ≡ false → 0 < count_where (not_done job.job_id) w.db.recordings
  unfolding find_recording
  claimed_some h =
      count_where-pos (has_id job.job_id) (not_done job.job_id) w.db.recordings r found
        (ground (arith, find-passes (has_id job.job_id) w.db.recordings r found))

  abbrev pub stored_rows : Db
  stored_rows = with_transcript job event (e.now w.trace) w.db

  persist_refused :
      is_done_state r.state ≡ false
      → takes e w.trace stored_rows ≡ false
      → ((persist job result e w).0 ≡ ok (false, result))
        × ((persist job result e w).1 ≡ record { db = durable w.trace; trace = w.trace })
  unfolding persist persist_body persist_found persist_transcript store_transcript give_up rollback
      claim_done modify commit_session durable try ◌>>=◌
  persist_refused h t =
      ground (arith, found, linked, claimed_some h, done_not_failed job.status finished)

  none_to_claim :
      AreKeyed recording_id w.db.recordings
      → is_done_state r.state ≡ true
      → count_where (not_done job.job_id) w.db.recordings ≡ 0
  unfolding find_recording
  none_to_claim keyed h =
      count_where-keyed recording_id (not_done job.job_id) job.job_id w.db.recordings r keyed
        (λ x p. ground arith) found (ground arith)

  -- For a finished job whose recording and event are found, the ids being keys: a recording that is
  -- done already keeps its transcript, the job may be acknowledged, and the trace does not change.
  pub persist_skips :
      AreKeyed recording_id w.db.recordings
      → is_done_state r.state ≡ true
      → ((persist job result e w).0 ≡ ok (true, record result { skipped = result.skipped + 1 }))
        × ((persist job result e w).1.trace ≡ w.trace)
  unfolding persist persist_body persist_found persist_transcript store_transcript rollback
      claim_done modify try ◌>>=◌
  persist_skips keyed h =
      ground (arith, found, linked, none_to_claim keyed h, done_not_failed job.status finished)

  long_event :
      (text : String) (now : ℕ) (id : String) (xs : List Event)
      → 2000 < count text
      → find (links_to id) xs ≡ some event
      → all event_fits (update_where (same_event event.id) (describe text now) xs) ≡ false
  unfolding find update_where
  long_event text now id [] long f = ground arith
  long_event text now id (x ∷ xs) long f =
      ground (arith, long_event text now id xs long, eq_refl event.id)

  long_stored_rows :
      (text : String) → job.text ≡ some text → 2000 < count text → columns_fit stored_rows ≡ false
  unfolding columns_fit write_description find_event_of update_recordings
  long_stored_rows text t long =
      let e' : text_or job.text "" ≡ text = rw t (text_or_empty text) in
      ground (arith, e', long_event (text_or job.text "") (e.now w.trace) job.job_id w.db.events)

  -- Where the database enforces the column's length, a transcript of more than 2000 characters, of a
  -- recording that is found with its event and is not done, is not stored: `_persist` refuses the
  -- job, and the stored rows stay as they are.
  pub long_transcript_refused :
      (text : String)
      → job.text ≡ some text
      → 2000 < count text
      → e.enforces_lengths ≡ true
      → is_done_state r.state ≡ false
      → ((persist job result e w).0 ≡ ok (false, result))
        × (durable (persist job result e w).1.trace ≡ durable w.trace)
  long_transcript_refused text t long enforced h =
      let refused = persist_refused h (ground (arith, long_stored_rows text t long)) in
      (refused.0, ap (λ (v : World). durable v.trace) refused.1)
