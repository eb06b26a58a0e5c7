-- ===== src/AudioStorage.antt =====
-- app/services/audio_storage.py: the audio that the worker reads.
use limon_backend.Base.{ℕ, String, List, truthy, text_or, if◌then◌else◌}
use limon_backend.Runtime.Errors.{
  Result, ok, err, audio_not_found, audio_storage_not_configured, library_error,
}
use limon_backend.Runtime.Wire.{Fetched, no_audio, unreadable, audio_bytes}
use limon_backend.Runtime.World.{Exec, raise, lift, ask, ◌>>=◌, ◌>>◌, emit, settings_of, read_audio}

-- The bytes, or the exception: `AudioNotFoundError`, or that of the reading itself.
unfoldable pub found_audio : Fetched → Result (List ℕ)
found_audio no_audio = err audio_not_found
found_audio unreadable = err library_error
found_audio (audio_bytes bytes) = ok bytes

-- `_download_gcs`
unfoldable pub download_gcs : String → String → Exec (List ℕ)
unfolding found_audio
download_gcs bucket storage_key = do
  blob ← ask (λ e w. e.blob w.trace bucket storage_key)
  emit (read_audio storage_key)
  lift (found_audio blob)

-- `_download_sync`
unfoldable pub download : String → Exec (List ℕ)
unfolding found_audio
download storage_key = do
  settings ← settings_of
  if truthy settings.local_audio_dir
      then (do
        bytes ← ask (λ e w. e.file w.trace (text_or settings.local_audio_dir "") storage_key)
        emit (read_audio storage_key)
        lift (found_audio bytes))
      else if truthy settings.gcs_bucket
      then download_gcs (text_or settings.gcs_bucket "") storage_key
      else raise audio_storage_not_configured
