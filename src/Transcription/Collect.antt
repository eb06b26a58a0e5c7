-- ===== src/Transcription/Collect.antt =====
-- `collect_transcripts` of app/services/transcription.py: drain, persist, then acknowledge.
use limon_backend.Base.{
  ℕ, zero, suc, ◌+◌, String, Bool, true, false, Option, none, some, List, [], ◌∷◌, ◌++◌, ◌&&◌, ◌||◌,
  not, ◌==◌, eqb, leb, length, null, empty_or_none, is_some, get_or, text_or, if◌then◌else◌,
}
use limon_backend.Models.{Recording, Event, Db, State}
use limon_backend.Models.Table.{count_where, update_where}
use limon_backend.Runtime.Errors.{Error, is_task_queue_error}
use limon_backend.Runtime.World.{
  Exec, pure, raise, ask, try, ◌>>=◌, ◌>>◌, modify, commit_session, rollback, utcnow,
}
use limon_backend.Transcriber
use limon_backend.Transcriber.{TranscriptJob, DrainPage, is_done, is_failed, waiting}
use limon_backend.Tagging.Dispatch.{dispatch_tagging}
use limon_backend.Transcription.Rows.{
  has_id, find_recording, find_event_of, update_recordings, mark_failed, revert_pending,
}

abbrev pub max_drain_pages : ℕ
max_drain_pages = 10

pub record CollectionResult : Type 0 where
  pub written : ℕ
  pub failed : ℕ
  pub skipped : ℕ
  pub unknown : ℕ
  pub acked : List String
  pub pages : ℕ

abbrev pub no_results : CollectionResult
no_results = record { written = 0; failed = 0; skipped = 0; unknown = 0; acked = []; pages = 0 }

-- `_persist_failure`
unfoldable pub persist_failure : TranscriptJob → CollectionResult → Exec (Bool × CollectionResult)
persist_failure job result =
    let counted : CollectionResult = record result { failed = result.failed + 1 } in
    if get_or job.error_code "" == "audio_missing"
    then (do revert_pending job.job_id; pure (true, counted))
    else do
      mark_failed job.job_id (text_or job.error_code "transcription_failed")
      pure (true, counted)

abbrev pub is_done_state : State → Bool
is_done_state State.done = true
is_done_state _ = false

-- `Recording.id == job.job_id, Recording.state != "done"`
abbrev pub not_done : String → Recording → Bool
not_done id r = has_id id r && not (is_done_state r.state)

abbrev pub set_done : ℕ → Recording → Recording
set_done now r = record r { state = State.done; error = none; updated_at = now }

abbrev pub same_event : String → Event → Bool
same_event id x = x.id == id

abbrev pub describe : String → ℕ → Event → Event
describe text now x = record x { description = some text; updated_at = now }

-- `event.description = text`
unfoldable pub write_description : String → String → ℕ → Db → Db
write_description event_id text now d = record d {
  events = update_where (same_event event_id) (describe text now) d.events;
}

unfoldable pub ignore_task_queue_error : Error → Exec (Unit {0})
ignore_task_queue_error x = if is_task_queue_error x then pure tt else raise x

-- Tagging is started for an event with no tags, and a queue's failure is swallowed.
unfoldable pub tag_if_untagged : Event → Exec (Unit {0})
unfolding ignore_task_queue_error
tag_if_untagged event =
    if empty_or_none event.tag_ids
    then try (dispatch_tagging event.id) ignore_task_queue_error
    else pure tt

-- The conditional update of a recording that is not done, and its `rowcount`.
unfoldable pub claim_done : String → Exec ℕ
claim_done record_id = do
  now ← utcnow
  rowcount ← ask (λ _ w. count_where (not_done record_id) w.db.recordings)
  modify (update_recordings (not_done record_id) (set_done now))
  pure rowcount

unfoldable pub store_transcript :
    TranscriptJob → CollectionResult → Event → Exec (Bool × CollectionResult)
store_transcript job result event = do
  rowcount ← claim_done job.job_id
  if eqb rowcount 0
      then (do rollback; pure (true, record result { skipped = result.skipped + 1 }))
      else do
        now ← utcnow
        modify (write_description event.id (text_or job.text "") now)
        commit_session
        tag_if_untagged event
        pure (true, record result { written = result.written + 1 })

-- `_persist_transcript`
unfoldable pub persist_transcript :
    TranscriptJob → CollectionResult → Option Event → Exec (Bool × CollectionResult)
unfolding store_transcript
persist_transcript job result none = do
  mark_failed job.job_id "No event linked to recording"
  pure (true, record result { failed = result.failed + 1 })
persist_transcript job result (some event) = store_transcript job result event

-- The body of the `try` in `_persist`.
unfoldable pub persist_found :
    TranscriptJob → CollectionResult → Option Recording → Exec (Bool × CollectionResult)
persist_found job result none = pure (true, record result { unknown = result.unknown + 1 })
persist_found job result (some r) =
    if is_failed job
    then persist_failure job result
    else if is_done job
    then (do
      event ← ask (λ _ w. find_event_of job.job_id w.db)
      persist_transcript job result event)
    else pure (false, result)

unfoldable pub persist_body : TranscriptJob → CollectionResult → Exec (Bool × CollectionResult)
persist_body job result = do
  recording ← ask (λ _ w. find_recording job.job_id w.db)
  persist_found job result recording

unfoldable pub give_up : CollectionResult → Error → Exec (Bool × CollectionResult)
give_up result x = do rollback; pure (false, result)

-- `_persist`: whether the job may be acknowledged, and the counts.
unfoldable pub persist : TranscriptJob → CollectionResult → Exec (Bool × CollectionResult)
unfolding persist_body give_up
persist job result = try (persist_body job result) (give_up result)

-- `for job in page.jobs`: the ids that may be acknowledged, in order.
unfoldable pub persist_all :
    List TranscriptJob → CollectionResult → Exec (List String × CollectionResult)
persist_all [] result = pure ([], result)
persist_all (job ∷ jobs) result = do
  (stored, counted) ← persist job result
  (ackable, total) ← persist_all jobs counted
  pure (if stored then job.job_id ∷ ackable else ackable, total)

-- One round of the loop: the counts, and whether another round is to follow.
unfoldable pub collect_page :
    Option (List String) → CollectionResult → Exec (Bool × CollectionResult)
collect_page ids result = do
  page ← Transcriber.drain ids
  let result : CollectionResult = record result { pages = result.pages + 1 }
  if null page.jobs then pure (false, result) else do
    (ackable, counted) ← persist_all page.jobs result
    if null ackable then pure (false, counted) else do
      Transcriber.ack ackable
      pure (
        not (is_some ids || leb (waiting page) (length page.jobs)),
        record counted { acked = counted.acked ++ ackable },
      )

-- `for _ in range(MAX_DRAIN_PAGES)`, by the rounds left.
unfoldable pub drain_pages : ℕ → Option (List String) → CollectionResult → Exec CollectionResult
drain_pages zero ids result = pure result
drain_pages (suc rounds) ids result = do
  (more, counted) ← collect_page ids result
  if more then drain_pages rounds ids counted else pure counted

unfoldable pub collect_transcripts : Option (List String) → Exec CollectionResult
collect_transcripts ids = drain_pages max_drain_pages ids no_results
