-- ===== src/Examples/Replays.antt =====
-- A job that is delivered twice, a failure report, a page of jobs, and a pass over stored rows.
use limon_backend.Base.{true, false, none, some, [], ◌∷◌, ◌≡◌, refl, ◌+◌, ◌≤◌, count, prefix}
use limon_backend.Models.{State}
use limon_backend.Models.Table.{find, update_where, count_where}
use limon_backend.Runtime.Ends.{Ends}
use limon_backend.Runtime.Triple.{Triple}
use limon_backend.Runtime.World.{
  Env, durable, columns_fit, start, try, ◌>>=◌, modify, commit_session,
}
use limon_backend.Transcriber.{TranscriptJob}
use limon_backend.Transcription.Rows.{find_recording, find_event_of, update_recordings, set_failed}
use limon_backend.Transcription.Submit.{run_transcription}
use limon_backend.Transcription.Collect.{
  no_results, persist, persist_found, persist_transcript, claim_done, tag_if_untagged,
  collect_transcripts, max_drain_pages, write_description,
}
use limon_backend.Transcription.Sweep.{sweep}
use limon_backend.Transcription.Replay.{persist-redelivered, failed_report_lem}
use limon_backend.Transcription.Frame.{outline, transcription-outline}
use limon_backend.Transcription.Drains.{drains, collect_transcripts-Rounds}
use limon_backend.Examples.{env, event, recording_in, rows, session}
use limon_backend.Examples.Collection.{env_with_job, job_with}

abbrev failed_job : TranscriptJob
failed_job = record {
  job_id = "r1";
  status = "failed";
  text = none;
  error_code = some "decode_error";
  error_message = none;
  error_retryable = false;
}

transcription-outline_example :
    (outline
        (durable (run_transcription "r1" env_with_job (start (rows State.transcribing))).1.trace)
      ≡ outline (rows State.transcribing))
    × (outline (durable (sweep env_with_job (start (rows State.transcribing))).1.trace)
        ≡ outline (rows State.transcribing))
transcription-outline_example = transcription-outline "r1" (rows State.transcribing) env_with_job

-- A database that takes every commit.
abbrev wide_env : Env
wide_env = record env { enforces_lengths = false }

persist-redelivered_example :
    Ends
      (λ p w.
        (p.0 ≡ true)
        × (durable w.trace
            ≡ durable
                (persist (job_with "hello") no_results env (session State.transcribing)).1.trace))
      (λ _ _. ⊥)
      (persist
        (job_with "other")
        no_results
        env_with_job
        (persist (job_with "hello") no_results env (session State.transcribing)).1)
unfolding find_recording find_event_of find persist durable try ◌>>=◌ persist_found
    persist_transcript claim_done modify count_where commit_session columns_fit write_description
    update_where update_recordings count tag_if_untagged
persist-redelivered_example =
    persist-redelivered (job_with "hello") (job_with "other") no_results no_results
      (record no_results { written = 1 }) (recording_in State.transcribing) event env env_with_job
      (session State.transcribing) refl refl refl refl refl refl refl

failed_report_lem_example :
    Ends
      (λ p w.
        (p.0 ≡ true)
        × (find_recording "r1" (durable w.trace)
            ≡ some (set_failed "decode_error" 1000 (recording_in State.done)))
        × ((durable w.trace).events ≡ event ∷ []))
      (λ _ _. ⊥)
      (persist failed_job no_results env (session State.done))
unfolding find_recording find durable columns_fit update_recordings update_where count prefix
failed_report_lem_example =
    failed_report_lem failed_job no_results (recording_in State.done) env (session State.done) refl
      refl refl refl

collect_transcripts-Rounds_example :
    Ends
      (λ c w. (drains w.trace ≡ 0 + c.pages) × (c.pages ≤ max_drain_pages))
      (λ x w. drains w.trace ≤ 0 + max_drain_pages)
      (collect_transcripts none env_with_job (session State.transcribing))
collect_transcripts-Rounds_example =
    collect_transcripts-Rounds none env_with_job (session State.transcribing)
