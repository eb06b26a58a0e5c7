-- ===== src/Transcription/Invariants.antt =====
-- Conditions on the world that each step of app/services/transcription.py keeps, and the calls that
-- its steps make up: here, the persisting of a page of jobs.
pub mod Submission
pub mod Recovery
use limon_backend.Base.{
  Bool, ℕ, zero, suc, String, true, false, Option, none, some, List, [], ◌∷◌, inl, inr, ◌⊎◌, join,
  eqb, text_or, ◌+◌,
}
use limon_backend.Models.{Recording, Event, Db, State}
use limon_backend.Runtime.Errors.{
  Error, task_queue_not_configured, job_conflict, PyFloat, audio_rejected, audio_too_large,
  endpoint_busy, unauthorized, endpoint_unavailable, transcriber_not_configured, transcriber_error,
  audio_not_found, audio_storage_not_configured,
}
use limon_backend.Runtime.Wire.{Request, Task, Payload}
use limon_backend.Runtime.World.{
  World, Exec, Call, ◌>>=◌, ◌>>◌, pure, modify, commit_session, rollback, send, emit, create_task,
  local_tagging, read_audio,
}
use limon_backend.Runtime.Keeps.{Keeps, keeps_rules, Keeps-bind, Keeps-ask}
use limon_backend.Settings.{Settings}
use limon_backend.AudioStorage.{download, download_gcs}
use limon_backend.Transcriber
use limon_backend.Transcriber.{TranscriptJob}
use limon_backend.TaskQueue
use limon_backend.TaskQueue.{enqueue_transcription}
use limon_backend.TaskQueue.Keeps.{enqueue_tagging-Keeps, enqueue_transcription-Keeps}
use limon_backend.Tagging.Dispatch.{dispatch_tagging, run_locally}
use limon_backend.Transcription.Rows.{
  has_id, update_recordings, set_state, set_failed, mark_failed, revert_pending,
}
use limon_backend.Transcription.Submit.{
  Outcome, can_claim, claim, fail_with, retry_with, recover_conflict, submit_with_conflict_recovery,
  after_submit_error, submit_audio, after_download_error, fetch_audio, send_audio, process_claimed,
  claim_and_process, run_found, run_transcription,
}
use limon_backend.Transcription.Collect.{
  CollectionResult, persist_failure, not_done, set_done, write_description, ignore_task_queue_error,
  tag_if_untagged, claim_done, store_transcript, persist_transcript, persist_found, persist_body,
  give_up, persist, persist_all, collect_page, drain_pages, collect_transcripts,
}
use limon_backend.Transcription.Sweep.{
  not_queued, enqueue, skip_unchecked, box_has_no_job, recover_stuck, recover_all_stuck,
  requeue_all_pending, sweep,
}

-- A condition on the world that each step of transcription keeps, where only payloads that meet `A`
-- are sent.
pub record IsInvariant (A : Payload → Type 0) (P : World → Type 0) : Type 0 where
  pub sends : (q : Request) → A q.payload → Keeps P (send q)
  pub queues : (t : Task) → Keeps P (emit (create_task t))
  pub starts_tagging : (id : String) → Keeps P (emit (local_tagging id))
  pub reads : (key : String) → Keeps P (emit (read_audio key))
  pub commits : Keeps P commit_session
  pub rolls_back : Keeps P rollback
  pub claims :
      (id : String) (now : ℕ)
      → Keeps P (modify (update_recordings (can_claim id) (set_state State.transcribing now)))
  pub finishes :
      (id : String) (now : ℕ) → Keeps P (modify (update_recordings (not_done id) (set_done now)))
  pub fails :
      (id reason : String) (now : ℕ)
      → Keeps P (modify (update_recordings (has_id id) (set_failed reason now)))
  pub reverts :
      (id : String) (now : ℕ)
      → Keeps P (modify (update_recordings (has_id id) (set_state State.pending now)))
  pub describes : (id text : String) (now : ℕ) → Keeps P (modify (write_description id text now))

module _ {A : Payload → Type 0} {P : World → Type 0} (inv : IsInvariant A P) where
  open inv use {
    queues, starts_tagging, reads, commits, rolls_back, finishes, fails, reverts, describes,
  }

  pub commit_session-Keeps : Keeps P commit_session
  commit_session-Keeps = commits

  rollback-Keeps : Keeps P rollback
  rollback-Keeps = rolls_back

  stored : (f : Db → Db) → Keeps P (modify f) → Keeps P (modify f >>= λ _. commit_session)
  stored f k = Keeps-bind P _ _ k (λ _. commits)

  pub mark_failed-Keeps : (id reason : String) → Keeps P (mark_failed id reason)
  unfolding mark_failed
  mark_failed-Keeps id reason =
      Keeps-bind P _ _ (Keeps-ask P _) (λ now. stored _ (fails id reason now))

  pub revert_pending-Keeps : (id : String) → Keeps P (revert_pending id)
  unfolding revert_pending
  revert_pending-Keeps id = Keeps-bind P _ _ (Keeps-ask P _) (λ now. stored _ (reverts id now))

  run_locally-Keeps : (id : String) (x : Error) → Keeps P (run_locally id x)
  unfolding run_locally
  run_locally-Keeps id task_queue_not_configured = starts_tagging id
  run_locally-Keeps id _ = search keeps_rules

  pub dispatch_tagging-Keeps : (id : String) → Keeps P (dispatch_tagging id)
  unfolding dispatch_tagging
  dispatch_tagging-Keeps id =
      search (keeps_rules, run_locally-Keeps, enqueue_tagging-Keeps P queues)

  pub enqueue-Keeps : (id : String) → Keeps P (enqueue id)
  unfolding enqueue not_queued
  enqueue-Keeps id = search (keeps_rules, enqueue_transcription-Keeps P queues)

  -- Collection.
  claim_done-Keeps : (id : String) → Keeps P (claim_done id)
  unfolding claim_done
  claim_done-Keeps id = Keeps-bind P _ _ (Keeps-ask P _) λ now.
      Keeps-bind P _ _ (Keeps-ask P _)
        λ n. Keeps-bind P _ _ (finishes id now) (λ _. search keeps_rules)

  tag_if_untagged-Keeps : (event : Event) → Keeps P (tag_if_untagged event)
  unfolding tag_if_untagged ignore_task_queue_error
  tag_if_untagged-Keeps event = search (keeps_rules, dispatch_tagging-Keeps)

  describe_and_commit :
      (job : TranscriptJob) (result : CollectionResult) (event : Event) (now : ℕ)
      → Keeps {A = Bool × CollectionResult} P (do
        modify (write_description event.id (text_or job.text "") now)
        commit_session
        tag_if_untagged event
        pure (true, record result { written = result.written + 1 }))
  describe_and_commit job result event now =
      Keeps-bind P _ _ (describes event.id _ now)
        (λ _. search (keeps_rules, commit_session-Keeps, tag_if_untagged-Keeps))

  store_transcript-Keeps :
      (job : TranscriptJob) (result : CollectionResult) (event : Event)
      → Keeps P (store_transcript job result event)
  unfolding store_transcript
  store_transcript-Keeps job result event =
      search (keeps_rules, claim_done-Keeps, rollback-Keeps, describe_and_commit) depth 8

  persist_transcript-Keeps :
      (job : TranscriptJob) (result : CollectionResult) (event : Option Event)
      → Keeps P (persist_transcript job result event)
  unfolding persist_transcript
  persist_transcript-Keeps job result none = search (keeps_rules, mark_failed-Keeps)
  persist_transcript-Keeps job result (some event) = store_transcript-Keeps job result event

  persist_found-Keeps :
      (job : TranscriptJob) (result : CollectionResult) (found : Option Recording)
      → Keeps P (persist_found job result found)
  unfolding persist_found persist_failure
  persist_found-Keeps job result none = search keeps_rules
  persist_found-Keeps job result (some r) =
      search (keeps_rules, revert_pending-Keeps, mark_failed-Keeps, persist_transcript-Keeps) depth
        8

  persist-Keeps : (job : TranscriptJob) (result : CollectionResult) → Keeps P (persist job result)
  unfolding persist persist_body give_up
  persist-Keeps job result = search (keeps_rules, persist_found-Keeps, rollback-Keeps)

  pub persist_all-Keeps :
      (jobs : List TranscriptJob) (result : CollectionResult) → Keeps P (persist_all jobs result)
  unfolding persist_all
  persist_all-Keeps [] result = search keeps_rules
  persist_all-Keeps (job ∷ jobs) result =
      Keeps-bind P _ _ (persist-Keeps job result)
        (λ p. Keeps-bind P _ _ (persist_all-Keeps jobs p.1) (λ q. search keeps_rules))
