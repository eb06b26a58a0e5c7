-- ===== src/Examples/Collection.antt =====
-- A transcript that is collected.
use limon_backend.Base.{
  ◌++◌, List, String, false, none, some, [], ◌∷◌, ◌≡◌, refl, arith, join, count, length,
}
use limon_backend.Models.{Recording, State, Db}
use limon_backend.Models.Table.{find}
use limon_backend.Runtime.Errors.{ok}
use limon_backend.Runtime.Wire.{Payload, job_query, job_ids, Reply, response, Body}
use limon_backend.Runtime.World.{Env, durable}
use limon_backend.Transcriber.{TranscriptJob}
use limon_backend.Transcription.Rows.{find_recording, find_event_of}
use limon_backend.Transcription.Collect.{no_results, persist}
use limon_backend.Transcription.Stores.{with_transcript, long_transcript_refused}
use Prim.Native.Nat.{min}
use limon_backend.Transcription.Sweep.{stale_rows}
use limon_backend.Transcription.Sweep.Selection.{IsByAge, SameRows, waiting, stale_rows_lem}
use limon_backend.Examples.{env, event, recording_in, rows, session}

-- A box that holds the finished job of the recording, and takes its acknowledgement.
abbrev box_reply : Payload → Reply
box_reply (job_query _ _ _ _) = response (record {
  status_code = 200;
  retry_after = none;
  body =
      Body.jobs
        (record { job_id = some "r1"; status = some "done"; text = some "hello"; error = none }
          ∷ [])
        1 0;
})
box_reply (job_ids _) =
    response (record { status_code = 200; retry_after = none; body = Body.acked })
box_reply _ = response (record { status_code = 404; retry_after = none; body = Body.no_json })

abbrev pub env_with_job : Env
env_with_job = record env { http = λ t q. box_reply q.payload }

abbrev pub job_with : String → TranscriptJob
job_with text = record {
  job_id = "r1";
  status = "done";
  text = some text;
  error_code = none;
  error_message = none;
  error_retryable = false;
}

abbrev transcribed : Db
transcribed = with_transcript (job_with "hello") event 1000 (rows State.transcribing)

-- 2048 characters
abbrev long_text : String
long_text =
    let twice : String → String = λ s. join s s in
    let a = twice (twice (twice (twice (twice "a")))) in
    twice (twice (twice (twice (twice (twice a)))))

long_transcript_refused_example :
    ((persist (job_with long_text) no_results env (session State.transcribing)).0
      ≡ ok (false, no_results))
    × (durable (persist (job_with long_text) no_results env (session State.transcribing)).1.trace
        ≡ durable (session State.transcribing).trace)
unfolding find_recording find_event_of find count join
long_transcript_refused_example =
    long_transcript_refused (job_with long_text) no_results (recording_in State.transcribing) event
      env (session State.transcribing) refl refl refl long_text refl (omega arith) refl refl

stale_rows_lem_example :
    let selected = stale_rows State.transcribing 1000 10 5 (rows State.transcribing) in
    let stuck = waiting State.transcribing 1000 10 (rows State.transcribing) in
    (length selected ≡ min 5 (length stuck))
    × (rest : List Recording) × IsByAge (selected ++ rest)
    × SameRows (selected ++ rest) stuck
stale_rows_lem_example = stale_rows_lem State.transcribing 1000 10 5 (rows State.transcribing)
