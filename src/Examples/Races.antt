-- ===== src/Examples/Races.antt =====
-- Two attempts at one recording.
use limon_backend.Base.{true, ◌∷◌, ◌≡◌, refl}
use limon_backend.Models.{Db, State}
use limon_backend.Runtime.Errors.{ok}
use limon_backend.Runtime.Ends.{Ends}
use limon_backend.Runtime.World.{commit, durable, start}
use limon_backend.Transcription.Rows.{update_recordings, set_state}
use limon_backend.Transcription.Submit.{outcome, noop, can_claim, claim_and_process}
use limon_backend.Transcription.Collect.{
  no_results, not_done, set_done, write_description, store_transcript,
}
use limon_backend.Transcription.Race.{describes, rest, claim_and_process_lost}
use limon_backend.Transcription.Race.Finished.{store_transcript_lost}
use limon_backend.Examples.{env, event, rows, recording_in}
use limon_backend.Examples.Collection.{job_with}

-- The rows after the first claim, and after an event was described.
abbrev after_both : Db
after_both =
    write_description "x1" "walk" 5
      (update_recordings (can_claim "r1") (set_state State.transcribing 4) (rows State.pending))

claim_and_process_lost_example :
    Ends
      (λ o w. (o ≡ outcome noop) × (w.trace ≡ commit after_both ∷ (start after_both).trace))
      (λ _ w. w.trace ≡ (start after_both).trace)
      (claim_and_process "r1" (recording_in State.pending) env (start after_both))
claim_and_process_lost_example =
    claim_and_process_lost "r1" (rows State.pending) after_both 4 (recording_in State.pending) env
      (start after_both) (describes "x1" "walk" 5 rest) refl

-- The rows after the first drain, and after an event was described.
abbrev after_drain : Db
after_drain =
    write_description "x1" "walk" 5
      (update_recordings (not_done "r1") (set_done 4) (rows State.transcribing))

store_transcript_lost_example :
    store_transcript (job_with "late") no_results event env (start after_drain) ≡ (
      ok (true, record no_results { skipped = 1 }),
      record (start after_drain) { db = durable (start after_drain).trace },
    )
store_transcript_lost_example =
    store_transcript_lost (job_with "late") no_results event (rows State.transcribing) after_drain 4
      env (start after_drain) (describes "x1" "walk" 5 rest) refl
