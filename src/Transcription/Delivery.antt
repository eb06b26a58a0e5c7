-- ===== src/Transcription/Delivery.antt =====
-- A submission attempt that nothing stands in the way of.
use limon_backend.Base.{
  ℕ, String, true, false, Option, none, some, List, ◌∷◌, ◌≡◌, ◌∙◌, refl, arith, eq_refl, eq_iff,
  ltb, eqb, ◌||◌, ◌⊎◌, inl, inr, length, truthy, text_or, join, rstrip_slash,
}
use limon_backend.Models.{Recording, Event, Db, State}
use limon_backend.Models.Table.{find-passes, count_where-pos, find-update_where-some}
use limon_backend.Runtime.Errors.{ok}
use limon_backend.Runtime.Wire.{post, Request, job_form, Body, response, audio_bytes}
use limon_backend.Runtime.World.{
  Env, World, Trace, commit, http, read_audio, ◌>>=◌, try, modify, emit, send, commit_session,
}
use limon_backend.AudioStorage.{download, download_gcs, found_audio}
use limon_backend.Transcriber
use limon_backend.Transcription.Rows.{
  has_id, find_recording, find_event_of, update_recordings, set_state,
}
use limon_backend.Transcription.Stores.{takes}
use limon_backend.Transcription.Submit.{
  submitted, outcome, claimable, can_claim, too_long, claim, claim_and_process, process_claimed,
  fetch_audio, send_audio, submit_audio, submit_with_conflict_recovery, run_found,
  run_transcription,
}

-- The rows with a recording claimed.
abbrev pub claimed_rows : String → ℕ → Db → Db
claimed_rows id now d = update_recordings (can_claim id) (set_state State.transcribing now) d

-- The request that submits audio to the box that a deployment names.
abbrev pub submission : Env → String → List ℕ → String → Request
submission e id audio content_type = record {
  method = post;
  url = join (rstrip_slash (text_or e.settings.transcriber_base_url "")) "/jobs";
  token = text_or e.settings.transcriber_token "";
  payload = job_form audio (join id ".m4a") content_type id;
}

module _ (key : String) (audio : List ℕ) (e : Env) where
  -- The audio is in the local directory that is set, or, where none is, in the bucket that is set.
  abbrev pub InDirectory : Type 0
  InDirectory =
      (truthy e.settings.local_audio_dir ≡ true)
      × ((t : Trace) → e.file t (text_or e.settings.local_audio_dir "") key ≡ audio_bytes audio)

  abbrev pub InBucket : Type 0
  InBucket =
      (truthy e.settings.local_audio_dir ≡ false)
      × (truthy e.settings.gcs_bucket ≡ true)
      × ((t : Trace) → e.blob t (text_or e.settings.gcs_bucket "") key ≡ audio_bytes audio)

  download-finds :
      (w : World)
      → InDirectory ⊎ InBucket
      → download key e w ≡ (ok audio, record w { trace = read_audio key ∷ w.trace })
  unfolding download download_gcs found_audio emit ◌>>=◌
  download-finds w (inl (set, there)) = ground (arith, set, there w.trace)
  download-finds w (inr (unset, set, there)) = ground (arith, unset, set, there w.trace)

-- The audio is where the deployment keeps it, and within the limits; the box is named, and accepts
-- jobs.
pub record IsDeliverable (r : Recording) (audio : List ℕ) (e : Env) : Type 0 where
  pub kept : InDirectory r.storage_key audio e ⊎ InBucket r.storage_key audio e
  pub short_enough : too_long e.settings.transcriber_max_audio_duration_s r.duration_sec ≡ false
  pub small_enough : ltb e.settings.transcriber_max_upload_bytes (length audio) ≡ false
  pub has_url : truthy e.settings.transcriber_base_url ≡ true
  pub has_token : truthy e.settings.transcriber_token ≡ true
  pub id_given : Option String
  pub status_given : Option String
  pub status : ℕ
  pub accepted : (eqb status 200 || eqb status 202) ≡ true
  pub accepts :
      (t : Trace)
      → e.http t (submission e r.id audio r.content_type)
        ≡ response (record {
          status_code = status;
          retry_after = none;
          body = Body.submitted id_given status_given;
        })

module _ (id : String) (r : Recording) (event : Event) (audio : List ℕ) (e : Env) where
  module _ (w : World) (same : r.id ≡ id) (deliverable : IsDeliverable r audio e) where
    process-submits : (process_claimed id r (some event) e w) ≡ (
      ok (outcome submitted),
      record w {
        trace = http (submission e r.id audio r.content_type) ∷ read_audio r.storage_key ∷ w.trace;
      },
    )
    unfolding process_claimed fetch_audio send_audio submit_audio submit_with_conflict_recovery
        Transcriber.submit Transcriber.submit_result Transcriber.request Transcriber.config
        Transcriber.answer send emit try ◌>>=◌
    process-submits = ground (
      arith,
      same,
      download-finds r.storage_key audio e w deliverable.kept,
      deliverable.accepted,
      deliverable.short_enough,
      deliverable.small_enough,
      deliverable.has_url,
      deliverable.has_token,
      deliverable.accepts (read_audio r.storage_key ∷ w.trace),
    )

  -- A recording that may be claimed and whose event exists, where the database takes the claim, the
  -- audio is read, in the local directory or in the bucket, and is within the limits, and the box
  -- accepts jobs with 200 or 202: the attempt commits the claim,
  -- reads the audio and submits it, in this order and once each, and returns submitted; the stored
  -- row is then `transcribing`, as of this attempt.
  pub run_transcription_submits :
      (w : World)
      → find_recording id w.db ≡ some r
      → find_event_of id w.db ≡ some event
      → claimable r.state ≡ true
      → takes e w.trace (claimed_rows id (e.now w.trace) w.db) ≡ true
      → IsDeliverable r audio e
      → let claimed = claimed_rows id (e.now w.trace) w.db in
        (run_transcription id e w ≡ (
          ok (outcome submitted),
          record {
            db = claimed;
            trace =
                http (submission e id audio r.content_type)
                ∷ read_audio r.storage_key
                ∷ commit claimed
                ∷ w.trace;
          },
        ))
        × (find_recording id claimed ≡ some (set_state State.transcribing (e.now w.trace) r))
  unfolding run_transcription run_found claim_and_process claim modify commit_session find_recording
      find_event_of update_recordings ◌>>=◌
  run_transcription_submits w found linked can taken deliverable =
      let now = e.now w.trace in
      let claimed = claimed_rows id now w.db in
      let same : r.id ≡ id = (eq_iff r.id id).0 (find-passes (has_id id) w.db.recordings r found) in
      (
        ground (
          arith,
          found,
          linked,
          can,
          taken,
          same,
          count_where-pos (has_id id) (can_claim id) w.db.recordings r found
              (ground (arith, same, eq_refl id)),
          process-submits (record { db = claimed; trace = commit claimed ∷ w.trace }) same
              deliverable,
        ),
        find-update_where-some (has_id id) (can_claim id) (set_state State.transcribing now)
              w.db.recordings r (λ x. refl) found
            ∙ ground (arith, same, eq_refl id),
      )
