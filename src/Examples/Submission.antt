-- ===== src/Examples/Submission.antt =====
-- A recording that is submitted.
use limon_backend.Base.{none, some, inr, [], ◌∷◌, ◌≡◌, refl}
use limon_backend.Models.{State}
use limon_backend.Models.Table.{find, update_where}
use limon_backend.Runtime.Errors.{ok}
use limon_backend.Runtime.Ends.{Ends}
use limon_backend.Runtime.Wire.{audio_bytes}
use limon_backend.Runtime.World.{Env, commit, http, read_audio, durable, columns_fit}
use limon_backend.Transcription.Rows.{find_recording, find_event_of, update_recordings, set_state}
use limon_backend.Transcription.Submit.{run_transcription, submitted, outcome}
use limon_backend.Transcription.Outcomes.{Surfaces}
use limon_backend.Transcription.Claim.{Explains, run_transcription-Explains}
use limon_backend.Transcription.Delivery.{
  IsDeliverable, claimed_rows, submission, run_transcription_submits,
}
use limon_backend.Examples.{env, settings, event, recording_in, rows, session, sound}

run_transcription-Explains_example :
    Ends
      (Explains "r1" (find_recording "r1" (rows State.pending)))
      Surfaces
      (run_transcription "r1" env (session State.pending))
unfolding durable find
run_transcription-Explains_example =
    run_transcription-Explains "r1" env (session State.pending) refl (refl, tt)

-- A deployment that keeps the audio in a bucket.
abbrev env_with_bucket : Env
env_with_bucket = record env {
  settings = record settings { local_audio_dir = none; gcs_bucket = some "audio" };
  blob = λ t bucket key. audio_bytes sound;
}

deliverable : IsDeliverable (recording_in State.pending) sound env_with_bucket
deliverable = record {
  kept = inr (refl, refl, λ t. refl);
  short_enough = refl;
  small_enough = refl;
  has_url = refl;
  has_token = refl;
  id_given = none;
  status_given = none;
  status = 202;
  accepted = refl;
  accepts = λ t. refl;
}

run_transcription_submits_example :
    (run_transcription "r1" env_with_bucket (session State.pending) ≡ (
      ok (outcome submitted),
      record {
        db = claimed_rows "r1" 1000 (rows State.pending);
        trace =
            http (submission env_with_bucket "r1" sound "audio/mp4")
            ∷ read_audio "v0/u1/r1.m4a"
            ∷ commit (claimed_rows "r1" 1000 (rows State.pending))
            ∷ commit (rows State.pending)
            ∷ [];
      },
    ))
    × (find_recording "r1" (claimed_rows "r1" 1000 (rows State.pending))
        ≡ some (set_state State.transcribing 1000 (recording_in State.pending)))
unfolding find_recording find_event_of find update_recordings update_where columns_fit
run_transcription_submits_example =
    run_transcription_submits "r1" (recording_in State.pending) event sound env_with_bucket
      (session State.pending) refl refl refl refl deliverable
