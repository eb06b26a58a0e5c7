-- ===== src/Transcription/Raises.antt =====
-- The exceptions that a download and a submission can raise.
use limon_backend.Base.{ℕ, String, Bool, true, false, List, ◌≡◌, arith, join, ◌||◌}
use limon_backend.Runtime.Errors.{
  Error, Result, ok, err, job_conflict, is_transcriber_error, audio_not_found,
  audio_storage_not_configured, db_error, data_error, value_error, library_error,
}
use limon_backend.Runtime.Ends.{Ends}
use limon_backend.Runtime.World.{World, Exec, pure, ◌>>=◌, ◌>>◌, send, emit}
use limon_backend.Runtime.Triple.{
  Triple, Triple-pure, Triple-bind, Triple-try, Triple-raise, Triple-before,
}
use limon_backend.AudioStorage.{download, download_gcs, found_audio}
use limon_backend.Transcriber
use limon_backend.Transcription.Submit.{submit_with_conflict_recovery, recover_conflict}

-- What no clause catches: a commit that fails, a reply of the box that is no JSON, and audio that can
-- not be read though it is there.
abbrev pub surfaces : Error → Bool
surfaces db_error = true
surfaces data_error = true
surfaces value_error = true
surfaces library_error = true
surfaces _ = false

abbrev pub of_submission : Error → Bool
of_submission x = is_transcriber_error x || surfaces x

abbrev pub of_download : Error → Bool
of_download audio_not_found = true
of_download audio_storage_not_configured = true
of_download x = surfaces x

abbrev pub RaisesOnly : {A : Type 0} → (Error → Bool) → Exec A → Type 0
RaisesOnly p m = Triple (λ _. Unit) m (λ _ _. Unit) (λ x _. p x ≡ true)

pub download-RaisesOnly : (key : String) → RaisesOnly of_download (download key)
unfolding download download_gcs found_audio emit ◌>>=◌
download-RaisesOnly key = record { at = λ e w h. ground arith }

submit-RaisesOnly :
    (job : String) (audio : List ℕ) (filename content_type : String)
    → RaisesOnly of_submission (Transcriber.submit job audio filename content_type)
unfolding Transcriber.submit Transcriber.submit_result Transcriber.request Transcriber.config
    Transcriber.answer Transcriber.raise_for_status Transcriber.parse_retry_after send ◌>>=◌
submit-RaisesOnly job audio filename content_type = record { at = λ e w h. ground arith }

discard-RaisesOnly : (job : String) → RaisesOnly of_submission (Transcriber.discard job)
unfolding Transcriber.discard Transcriber.request Transcriber.config Transcriber.answer
    Transcriber.raise_for_status Transcriber.parse_retry_after send ◌>>=◌
discard-RaisesOnly job = record { at = λ e w h. ground arith }

pub submit_with_conflict_recovery-RaisesOnly :
    (job : String) (audio : List ℕ) (content_type : String)
    → RaisesOnly of_submission (submit_with_conflict_recovery job audio content_type)
unfolding submit_with_conflict_recovery recover_conflict
submit_with_conflict_recovery-RaisesOnly job audio content_type =
    Triple-try (λ x _. of_submission x ≡ true) first-RaisesOnly again
  where
    first : Exec (Unit {0})
    first = Transcriber.submit job audio (join job ".m4a") content_type >>= λ _. pure tt

    first-RaisesOnly : RaisesOnly of_submission first
    first-RaisesOnly =
        Triple-bind (λ _ _. Unit) (submit-RaisesOnly job audio _ content_type)
          (λ _. Triple-pure _ (λ w h. tt))

    resubmit :
        Triple
          (λ _. of_submission job_conflict ≡ true)
          (Transcriber.discard job >> first)
          (λ _ _. Unit)
          (λ x _. of_submission x ≡ true)
    resubmit =
        Triple-before (λ _. Unit) (λ w h. tt)
          (Triple-bind (λ _ _. Unit) (discard-RaisesOnly job) (λ _. first-RaisesOnly))

    again :
        (x : Error)
        → Triple
            (λ _. of_submission x ≡ true)
            (recover_conflict (Transcriber.discard job >> first) x)
            (λ _ _. Unit)
            (λ y _. of_submission y ≡ true)
    again job_conflict = resubmit
    again x = Triple-raise _ (λ w h. h)

both :
    {A : Type 0} (Q : A → World → Type 0) (X : Error → World → Type 0) (p : Error → Bool)
    (r : Result A × World)
    → Ends Q X r
    → Ends (λ _ _. Unit) (λ x _. p x ≡ true) r
    → Ends Q (λ x w. X x w × (p x ≡ true)) r
both Q X p (ok a, w) h k = h
both Q X p (err x, w) h k = (h, k)

module _ {A : Type 0} {P : World → Type 0} {Q : A → World → Type 0}
    {X : Error → World → Type 0} where
  -- What is known of a call, with what it can raise.
  pub Triple-raises :
      (p : Error → Bool) {m : Exec A}
      → Triple P m Q X
      → RaisesOnly p m
      → Triple P m Q (λ x w. X x w × (p x ≡ true))
  Triple-raises p {m} t k = record { at = λ e w h. both Q X p (m e w) (t.at e w h) (k.at e w tt) }
