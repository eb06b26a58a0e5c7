-- ===== src/Transcription/Plan.antt =====
-- What collection promises about one finished job, and about a page of them, said without the
-- session, the box or the queue: a description to hold `_persist` of app/services/transcription.py
-- against.
use limon_backend.Base.{
  ℕ, String, Bool, true, false, Option, none, some, List, [], ◌∷◌, ◌==◌, any, get_or, text_or,
  if◌then◌else◌,
}
use limon_backend.Models.{Recording, Event, Db, State}
use limon_backend.Runtime.World.{Env, Trace, durable}
use limon_backend.Transcriber.{TranscriptJob, is_done, is_failed}
use limon_backend.Transcription.Rows.{
  has_id, find_recording, find_event_of, update_recordings, set_state, set_failed,
}
use limon_backend.Transcription.Collect.{not_done}
use limon_backend.Transcription.Stores.{with_transcript, takes}

-- What a job calls for: nothing, and it may be acknowledged; nothing yet; or these rows.
pub data Plan : Type 0 where
  leave wait : Plan
  store : Db → Plan

abbrev pub failure_plan : TranscriptJob → ℕ → Db → Plan
failure_plan job now d =
    let change : Recording → Recording =
      if get_or job.error_code "" == "audio_missing"
      then set_state State.pending now
      else set_failed (text_or job.error_code "transcription_failed") now in
    store (update_recordings (has_id job.job_id) change d)

abbrev pub transcript_plan : TranscriptJob → ℕ → Db → Option Event → Plan
transcript_plan job now d none =
    store (update_recordings (has_id job.job_id) (set_failed "No event linked to recording" now) d)
transcript_plan job now d (some event) =
    if any (not_done job.job_id) d.recordings
    then store (with_transcript job event now d)
    else leave

abbrev pub plan_for : TranscriptJob → ℕ → Db → Option Recording → Option Event → Plan
plan_for job now d none linked = leave
plan_for job now d (some r) linked =
    if is_failed job
    then failure_plan job now d
    else if is_done job
    then transcript_plan job now d linked
    else wait

-- The plan for a job over the stored rows.
unfoldable pub plan : TranscriptJob → ℕ → Db → Plan
plan job now d = plan_for job now d (find_recording job.job_id d) (find_event_of job.job_id d)

-- Whether the job may be acknowledged, and the rows that are stored afterwards.
abbrev pub acknowledged : Plan → Env → Trace → Bool
acknowledged leave e t = true
acknowledged wait e t = false
acknowledged (store d) e t = takes e t d

abbrev pub rows_after : Plan → Env → Trace → Db
rows_after leave e t = durable t
rows_after wait e t = durable t
rows_after (store d) e t = if takes e t d then d else durable t

-- The rows with a job's plan carried out.
abbrev pub carried_out : Plan → Db → Db
carried_out (store d') d = d'
carried_out _ d = d

unfoldable pub apply_job : TranscriptJob → ℕ → Db → Db
unfolding plan
apply_job job now d = carried_out (plan job now d) d

-- A page of jobs: each one is carried out as a whole and acknowledged, or left out and kept by the
-- box.
pub data Applies : Db → List TranscriptJob → List String → Db → Type 0 where
  finished : {d : Db} → Applies d [] [] d
  applied :
      {d d' : Db} {job : TranscriptJob} {jobs : List TranscriptJob} {acks : List String} (now : ℕ)
      → Applies (apply_job job now d) jobs acks d'
      → Applies d (job ∷ jobs) (job.job_id ∷ acks) d'
  left_out :
      {d d' : Db} {job : TranscriptJob} {jobs : List TranscriptJob} {acks : List String}
      → Applies d jobs acks d'
      → Applies d (job ∷ jobs) acks d'
