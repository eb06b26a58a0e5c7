-- ===== src/Transcription/Invariants/Submission.antt =====
-- A submission attempt of app/services/transcription.py, for a condition that its steps keep.
use limon_backend.Base.{ℕ, String, Option, none, some, List, inl, inr, ◌⊎◌, join}
use limon_backend.Models.{Recording, Event}
use limon_backend.Runtime.Errors.{
  Error, job_conflict, PyFloat, audio_rejected, audio_too_large, endpoint_busy, unauthorized,
  endpoint_unavailable, transcriber_not_configured, transcriber_error, audio_not_found,
  audio_storage_not_configured,
}
use limon_backend.Runtime.Wire.{Payload, job_form, nothing}
use limon_backend.Runtime.World.{World, ◌>>=◌, ◌>>◌, pure}
use limon_backend.Runtime.Keeps.{Keeps, keeps_rules, Keeps-bind, Keeps-ask}
use limon_backend.Settings.{Settings}
use limon_backend.AudioStorage.{download, download_gcs}
use limon_backend.Transcriber
use limon_backend.Transcriber.{TranscriptJob}
use limon_backend.Transcription.Submit.{
  Outcome, claim, fail_with, retry_with, recover_conflict, submit_with_conflict_recovery,
  after_submit_error, submit_audio, after_download_error, fetch_audio, send_audio, process_claimed,
  claim_and_process, run_found, run_transcription,
}
use limon_backend.Transcription.Invariants.{
  IsInvariant, mark_failed-Keeps, revert_pending-Keeps, commit_session-Keeps,
}

module _ {A : Payload → Type 0} {P : World → Type 0} (inv : IsInvariant A P) (job : String)
    (forms : (audio : List ℕ) (filename content_type : String)
      → A (job_form audio filename content_type job))
    (empty : A nothing) where
  open inv use {sends, reads, claims}

  claim-Keeps : (id : String) → Keeps P (claim id)
  unfolding claim
  claim-Keeps id = Keeps-bind P _ _ (Keeps-ask P _) λ now.
      Keeps-bind P _ _ (Keeps-ask P _)
        λ n. Keeps-bind P _ _ (claims id now) (λ _. search (keeps_rules, commit_session-Keeps inv))

  fail_with-Keeps : (id reason : String) → Keeps P (fail_with id reason)
  unfolding fail_with
  fail_with-Keeps id reason = search (keeps_rules, mark_failed-Keeps inv)

  submit-Keeps :
      (audio : List ℕ) (filename content_type : String)
      → Keeps P (Transcriber.submit job audio filename content_type)
  submit-Keeps audio filename content_type =
      Transcriber.Keeps.submit-Keeps P A sends job audio filename content_type (forms _ _ _)

  discard-Keeps : Keeps P (Transcriber.discard job)
  discard-Keeps = Transcriber.Keeps.discard-Keeps P A sends job empty

  download-Keeps : (key : String) → Keeps P (download key)
  unfolding download download_gcs
  download-Keeps key = search (keeps_rules, reads) depth 8

  resubmit-Keeps :
      (audio : List ℕ) (content_type : String) (x : Error)
      → Keeps P (
          recover_conflict
            (Transcriber.discard job
              >> (Transcriber.submit job audio (join job ".m4a") content_type >>= λ _. pure tt))
            x)
  unfolding recover_conflict
  resubmit-Keeps audio content_type job_conflict = search (keeps_rules, submit-Keeps, discard-Keeps)
  resubmit-Keeps audio content_type _ = search keeps_rules

  submit_with_conflict_recovery-Keeps :
      (audio : List ℕ) (content_type : String)
      → Keeps P (submit_with_conflict_recovery job audio content_type)
  unfolding submit_with_conflict_recovery
  submit_with_conflict_recovery-Keeps audio content_type =
      search (keeps_rules, submit-Keeps, resubmit-Keeps)

  retry_with-Keeps : (id : String) (after : Option PyFloat) → Keeps P (retry_with id after)
  unfolding retry_with
  retry_with-Keeps id after = search (keeps_rules, revert_pending-Keeps inv)

  ruleset settling_rules = (fail_with-Keeps, retry_with-Keeps)

  after_submit_error-Keeps : (id : String) (x : Error) → Keeps P (after_submit_error id x)
  unfolding after_submit_error
  after_submit_error-Keeps id audio_rejected = fail_with-Keeps id _
  after_submit_error-Keeps id audio_too_large = fail_with-Keeps id _
  after_submit_error-Keeps id job_conflict = fail_with-Keeps id _
  after_submit_error-Keeps id (endpoint_busy after) = retry_with-Keeps id after
  after_submit_error-Keeps id unauthorized = retry_with-Keeps id none
  after_submit_error-Keeps id endpoint_unavailable = retry_with-Keeps id none
  after_submit_error-Keeps id transcriber_not_configured = retry_with-Keeps id none
  after_submit_error-Keeps id transcriber_error = retry_with-Keeps id none
  after_submit_error-Keeps id _ = search keeps_rules

  submit_audio-Keeps :
      (audio : List ℕ) (content_type : String) → Keeps P (submit_audio job audio content_type)
  unfolding submit_audio
  submit_audio-Keeps audio content_type =
      search (keeps_rules, submit_with_conflict_recovery-Keeps, after_submit_error-Keeps)

  after_download_error-Keeps : (id : String) (x : Error) → Keeps P (after_download_error id x)
  unfolding after_download_error
  after_download_error-Keeps id audio_not_found = search (keeps_rules, settling_rules)
  after_download_error-Keeps id audio_storage_not_configured = search (keeps_rules, settling_rules)
  after_download_error-Keeps id _ = search keeps_rules

  fetch_audio-Keeps : (id key : String) → Keeps P (fetch_audio id key)
  unfolding fetch_audio
  fetch_audio-Keeps id key = search (keeps_rules, download-Keeps, after_download_error-Keeps)

  send_audio-Keeps :
      (settings : Settings) (content_type : String) (fetched : List ℕ ⊎ Outcome)
      → Keeps P (send_audio settings job content_type fetched)
  unfolding send_audio
  send_audio-Keeps settings content_type (inr o) = search keeps_rules
  send_audio-Keeps settings content_type (inl audio) =
      search (keeps_rules, settling_rules, submit_audio-Keeps)

  process_claimed-Keeps :
      (r : Recording) (event : Option Event) → Keeps P (process_claimed job r event)
  unfolding process_claimed
  process_claimed-Keeps r none = fail_with-Keeps job _
  process_claimed-Keeps r (some event) =
      search (keeps_rules, settling_rules, fetch_audio-Keeps, send_audio-Keeps) depth 8

  run_found-Keeps : (found : Option Recording) → Keeps P (run_found job found)
  unfolding run_found claim_and_process
  run_found-Keeps none = search keeps_rules
  run_found-Keeps (some r) = search (keeps_rules, claim-Keeps, process_claimed-Keeps) depth 8

  pub run_transcription-Keeps : Keeps P (run_transcription job)
  unfolding run_transcription
  run_transcription-Keeps = search (keeps_rules, run_found-Keeps)
