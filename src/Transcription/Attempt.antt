-- ===== src/Transcription/Attempt.antt =====
-- What follows the claim of a recording, from its row being `transcribing` to the outcome.
use limon_backend.Base.{ℕ, String, Option, none, some, List, refl, ◌⊎◌, inl, inr, ltb, length}
use limon_backend.Settings.{Settings}
use limon_backend.Models.{Recording, Event, State}
use limon_backend.Runtime.Errors.{Error, audio_not_found, audio_storage_not_configured}
use limon_backend.Runtime.World.{World}
use limon_backend.Runtime.Triple.{
  Triple, Triple-pure, Triple-raise, Triple-ask, Triple-if, Triple-before, Triple-try, Triple-keeps,
  Triple-bind,
}
use limon_backend.Transcription.Raises.{
  of_submission, of_download, download-RaisesOnly, submit_with_conflict_recovery-RaisesOnly,
  Triple-raises,
}
use limon_backend.Transcription.Submit.{
  Outcome, submit_audio, after_download_error, fetch_audio, send_audio, too_long, process_claimed,
}
use limon_backend.Transcription.Outcomes.{
  IsIn, Agrees, Surfaces, Resolves, Raised, download-Keeps, submit_with_conflict_recovery-Keeps,
  fail_with-Resolves, retry_with-Resolves, after_submit_error-Resolves,
}

-- After the claim the row is `transcribing`.
module _ (id : String) where
  submit_audio-Resolves :
      (audio : List ℕ) (content_type : String)
      → Resolves State.transcribing id (submit_audio id audio content_type)
  unfolding submit_audio Raised
  submit_audio-Resolves audio content_type =
      Triple-try (Raised State.transcribing id of_submission)
        (Triple-bind (λ _. IsIn State.transcribing id)
          (Triple-raises of_submission
            (Triple-keeps
              (submit_with_conflict_recovery-Keeps State.transcribing id id audio content_type))
            (submit_with_conflict_recovery-RaisesOnly id audio content_type))
          (λ _. Triple-pure _ (λ w h. (h, refl))))
        (after_submit_error-Resolves State.transcribing id)

  -- The audio, in a row that is still `transcribing`, or an outcome that the row agrees with.
  Fetched : List ℕ ⊎ Outcome → World → Type 0
  Fetched (inl audio) w = IsIn State.transcribing id w
  Fetched (inr o) w = Agrees id o w

  after_download_error-Fetched :
      (x : Error)
      → Triple
          (Raised State.transcribing id of_download x)
          (after_download_error id x)
          Fetched
          Surfaces
  unfolding after_download_error Fetched Raised
  after_download_error-Fetched audio_not_found =
      Triple-before (IsIn State.transcribing id) (λ w h. h.0)
        (Triple-bind (Agrees id) (fail_with-Resolves State.transcribing id _)
          (λ o. Triple-pure _ (λ w h. h)))
  after_download_error-Fetched audio_storage_not_configured =
      Triple-before (IsIn State.transcribing id) (λ w h. h.0)
        (Triple-bind (Agrees id) (retry_with-Resolves State.transcribing id none)
          (λ o. Triple-pure _ (λ w h. h)))
  after_download_error-Fetched x = Triple-raise _ (λ w h. h.1)

  fetch_audio-Fetched :
      (key : String) → Triple (IsIn State.transcribing id) (fetch_audio id key) Fetched Surfaces
  unfolding fetch_audio Fetched Raised
  fetch_audio-Fetched key =
      Triple-try (Raised State.transcribing id of_download)
        (Triple-bind (λ _. IsIn State.transcribing id)
          (Triple-raises of_download (Triple-keeps (download-Keeps State.transcribing id key))
            (download-RaisesOnly key))
          (λ bytes. Triple-pure _ (λ w h. h)))
        after_download_error-Fetched

  send_audio-Resolves :
      (settings : Settings) (content_type : String) (fetched : List ℕ ⊎ Outcome)
      → Triple (Fetched fetched) (send_audio settings id content_type fetched) (Agrees id) Surfaces
  unfolding send_audio Fetched
  send_audio-Resolves settings content_type (inr o) = Triple-pure _ (λ w h. h)
  send_audio-Resolves settings content_type (inl audio) =
      Triple-if (ltb settings.transcriber_max_upload_bytes (length audio)) _ _
        (λ _. fail_with-Resolves State.transcribing id _)
        (λ _. submit_audio-Resolves audio content_type)

  pub process_claimed-Resolves :
      (r : Recording) (event : Option Event)
      → Resolves State.transcribing id (process_claimed id r event)
  unfolding process_claimed
  process_claimed-Resolves r none = fail_with-Resolves State.transcribing id _
  process_claimed-Resolves r (some event) =
      Triple-bind (λ _. IsIn State.transcribing id) (Triple-ask _ (λ e w h. h))
        λ settings.
          Triple-if (too_long settings.transcriber_max_audio_duration_s r.duration_sec) _ _
            (λ _. fail_with-Resolves State.transcribing id _)
            (λ _.
              Triple-bind Fetched (fetch_audio-Fetched r.storage_key)
                (send_audio-Resolves settings r.content_type))
