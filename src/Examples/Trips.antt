-- ===== src/Examples/Trips.antt =====
-- The round-trip script against a box that transcribes its clip.
use limon_backend.Base.{
  ℕ, ◌+◌, ◌≤◌, Bool, true, false, none, some, [], ◌∷◌, ◌≡◌, refl, arith, eqb, join, if◌then◌else◌,
}
use limon_backend.Models.Table.{find, update_where}
use limon_backend.Runtime.Errors.{ok}
use limon_backend.Runtime.Ends.{Ends}
use limon_backend.Runtime.Wire.{Payload, job_form, job_query, job_ids, Reply, response, Body}
use limon_backend.Runtime.World.{Env, Trace, Call, sleep}
use limon_backend.Scripts.Roundtrip.{Args, main, throwaway}
use limon_backend.Scripts.Roundtrip.Polling.{IsClock, Exits, Raised, main-Exits}
use limon_backend.Scripts.Roundtrip.Verdict.{Means, Safe}
use limon_backend.Scripts.Roundtrip.Gate.{main-Means}
use limon_backend.Scripts.Roundtrip.Scope.{PageReports, HonoursIds, AllName}
use limon_backend.Scripts.Roundtrip.Scope.Cycle.{main-AllName}
use limon_backend.Base.{count}
use limon_backend.Models.Table.{count_where}
use limon_backend.Runtime.World.{
  ◌>>=◌, pure, ask, raise, lift, modify, emit, send, try, commit_session, columns_fit, durable,
  rollback,
}
use limon_backend.AudioStorage.{download, found_audio}
use limon_backend.Transcriber
use limon_backend.TaskQueue.{enqueue_tagging, create_cloud_task}
use limon_backend.Tagging.Dispatch.{dispatch_tagging, run_locally}
use limon_backend.Transcription.Rows.{find_recording, find_event_of, update_recordings}
use limon_backend.Transcription.Submit.{
  run_transcription, run_found, claim_and_process, claim, process_claimed, fetch_audio, send_audio,
  submit_audio, submit_with_conflict_recovery,
}
use limon_backend.Transcription.Collect.{
  collect_transcripts, drain_pages, collect_page, persist_all, persist, persist_body, persist_found,
  persist_transcript, store_transcript, claim_done, write_description, tag_if_untagged,
  ignore_task_queue_error,
}
use limon_backend.Scripts.Roundtrip.{run_clip, under, seed, cycle, poll, report, refresh}
use limon_backend.Examples.{env, sound}

abbrev ticks : Trace → ℕ
ticks [] = 0
ticks (sleep n ∷ t) = ticks t + n
ticks (_ ∷ t) = ticks t + 1

-- The job is finished once the script has paused.
abbrev has_paused : Trace → Bool
has_paused [] = false
has_paused (sleep n ∷ t) = true
has_paused (_ ∷ t) = has_paused t

abbrev page : Bool → Body
page true =
    Body.jobs
      (record { job_id = some "r1"; status = some "done"; text = some "shalom"; error = none } ∷ [])
      1 0
page false = Body.jobs [] 0 0

abbrev answers : Trace → Payload → Reply
answers t (job_form _ _ _ _) =
    response (record { status_code = 202; retry_after = none; body = Body.submitted none none })
answers t (job_query _ _ _ _) =
    response (record { status_code = 200; retry_after = none; body = page (has_paused t) })
answers t (job_ids _) =
    response (record { status_code = 200; retry_after = none; body = Body.acked })
answers t _ = response (record { status_code = 404; retry_after = none; body = Body.no_json })

abbrev trip_env : Env
trip_env = record env {
  now = ticks;
  new_id = λ t n. if eqb n 0 then "r1" else "e1";
  http = λ t q. answers t q.payload;
}

abbrev args : Args
args = record { clip_suffix = ".ogg"; clip = some sound; timeout = 600; interval = 10 }

ticks-IsClock : IsClock ticks
ticks-IsClock = record { forward = later; pauses = λ n t. omega arith }
  where
    later : (c : Call) (t : Trace) → ticks t ≤ ticks (c ∷ t)
    later c t = ground arith

main-Exits_example : Ends Exits Raised (main 61 args trip_env throwaway)
main-Exits_example = main-Exits trip_env args 60 (omega arith) ticks-IsClock throwaway

main-Means_example : Ends (Means "r1" "e1") Safe (main 61 args trip_env throwaway)
main-Means_example = main-Means 61 args trip_env

page-Reports :
    (b : Bool)
    → PageReports "r1" (response (record { status_code = 200; retry_after = none; body = page b }))
page-Reports true = (refl, tt)
page-Reports false = tt

answers-Reports : (t : Trace) (p : Payload) → PageReports "r1" (answers t p)
answers-Reports t (job_query _ _ _ _) = page-Reports (has_paused t)
answers-Reports t (job_form _ _ _ _) = tt
answers-Reports t _ = tt

trip_env-HonoursIds : HonoursIds trip_env "r1"
trip_env-HonoursIds = record { filters = λ t q s i n same. answers-Reports t q.payload }

main-AllName_example : AllName "r1" (main 61 args trip_env throwaway).1.trace
main-AllName_example = main-AllName 61 args trip_env trip_env-HonoursIds

-- The script reports success.
trip_passes : (main 3 args trip_env throwaway).0 ≡ ok (some 0)
unfolding main run_clip under seed cycle poll report refresh ◌>>=◌ pure ask raise lift modify emit
    send try commit_session columns_fit durable rollback run_transcription run_found
    claim_and_process claim process_claimed fetch_audio send_audio download found_audio submit_audio
    submit_with_conflict_recovery find_recording find_event_of update_recordings find update_where
    count_where collect_transcripts drain_pages collect_page persist_all persist persist_body
    persist_found persist_transcript store_transcript claim_done write_description tag_if_untagged
    ignore_task_queue_error dispatch_tagging enqueue_tagging create_cloud_task run_locally
    Transcriber.submit Transcriber.submit_result Transcriber.request Transcriber.config
    Transcriber.answer Transcriber.drain Transcriber.drain_page Transcriber.parse_jobs
    Transcriber.ack Transcriber.get_job Transcriber.ids_param join count
trip_passes = refl
