-- ===== src/Transcription/Submit.antt =====
-- `run_transcription` of app/services/transcription.py: claim a recording and submit its audio.
use limon_backend.Base.{
  ℕ, String, Bool, true, false, Option, none, some, List, ◌⊎◌, inl, inr, ◌&&◌, ltb, eqb, length,
  join, if◌then◌else◌,
}
use limon_backend.Settings.{Settings}
use limon_backend.Models.{Recording, Event, State}
use limon_backend.Models.Table.{count_where}
use limon_backend.Runtime.Errors.{
  Error, PyFloat, transcriber_error, transcriber_not_configured, endpoint_unavailable,
  endpoint_busy, audio_rejected, audio_too_large, job_conflict, unauthorized, audio_not_found,
  audio_storage_not_configured,
}
use limon_backend.Runtime.World.{
  Exec, pure, raise, ask, try, ◌>>=◌, ◌>>◌, modify, commit_session, settings_of, utcnow,
}
use limon_backend.Transcriber
use limon_backend.AudioStorage.{download}
use limon_backend.Transcription.Rows.{
  has_id, find_recording, find_event_of, update_recordings, set_state, mark_failed, revert_pending,
}

pub data Status : Type 0 where
  noop submitted done failed retry : Status

pub record Outcome : Type 0 where
  pub status : Status
  pub retry_after : Option PyFloat

abbrev pub outcome : Status → Outcome
outcome s = record { status = s; retry_after = none }

-- `Recording.state.in_(("pending", "failed"))`
abbrev pub claimable : State → Bool
claimable State.pending = true
claimable State.failed = true
claimable _ = false

abbrev pub can_claim : String → Recording → Bool
can_claim id r = has_id id r && claimable r.state

-- The conditional update, its commit and its `rowcount`.
unfoldable pub claim : String → Exec ℕ
claim record_id = do
  now ← utcnow
  rowcount ← ask (λ _ w. count_where (can_claim record_id) w.db.recordings)
  modify (update_recordings (can_claim record_id) (set_state State.transcribing now))
  commit_session
  pure rowcount

unfoldable pub fail_with : String → String → Exec Outcome
fail_with record_id reason = do mark_failed record_id reason; pure (outcome failed)

unfoldable pub retry_with : String → Option PyFloat → Exec Outcome
retry_with record_id after = do
  revert_pending record_id
  pure (record { status = retry; retry_after = after })

unfoldable pub recover_conflict : Exec (Unit {0}) → Error → Exec (Unit {0})
recover_conflict again job_conflict = again
recover_conflict again x = raise x

-- `_submit_with_conflict_recovery`
unfoldable pub submit_with_conflict_recovery : String → List ℕ → String → Exec (Unit {0})
unfolding recover_conflict
submit_with_conflict_recovery record_id audio content_type =
    let first = (do
      Transcriber.submit record_id audio (join record_id ".m4a") content_type
      pure tt) in
    try first (recover_conflict (do Transcriber.discard record_id; first))

-- The `except` clauses round the submission.
unfoldable pub after_submit_error : String → Error → Exec Outcome
after_submit_error id audio_rejected = fail_with id "AudioRejectedError"
after_submit_error id audio_too_large = fail_with id "AudioTooLargeError"
after_submit_error id job_conflict = fail_with id "JobConflictError"
after_submit_error id (endpoint_busy after) = retry_with id after
after_submit_error id unauthorized = retry_with id none
after_submit_error id endpoint_unavailable = retry_with id none
after_submit_error id transcriber_not_configured = retry_with id none
after_submit_error id transcriber_error = retry_with id none
after_submit_error id x = raise x

unfoldable pub submit_audio : String → List ℕ → String → Exec Outcome
unfolding after_submit_error
submit_audio record_id audio content_type =
    try (do submit_with_conflict_recovery record_id audio content_type; pure (outcome submitted))
      (after_submit_error record_id)

-- The `except` clauses round the download.
unfoldable pub after_download_error : String → Error → Exec (List ℕ ⊎ Outcome)
after_download_error id audio_not_found = do o ← fail_with id "Audio object not found"; pure (inr o)
after_download_error id audio_storage_not_configured = do o ← retry_with id none; pure (inr o)
after_download_error id x = raise x

unfoldable pub fetch_audio : String → String → Exec (List ℕ ⊎ Outcome)
unfolding after_download_error
fetch_audio record_id storage_key =
    try (do bytes ← download storage_key; pure (inl bytes)) (after_download_error record_id)

-- The size check, and the submission.
unfoldable pub send_audio : Settings → String → String → List ℕ ⊎ Outcome → Exec Outcome
send_audio settings record_id content_type (inr o) = pure o
send_audio settings record_id content_type (inl audio) =
    if ltb settings.transcriber_max_upload_bytes (length audio)
    then fail_with record_id "Audio is larger than the transcriber allows"
    else submit_audio record_id audio content_type

-- `recording.duration_sec is not None and recording.duration_sec > max`
abbrev pub too_long : ℕ → Option ℕ → Bool
too_long max none = false
too_long max (some sec) = ltb max sec

-- What follows the claim, for the row that was read before it.
unfoldable pub process_claimed : String → Recording → Option Event → Exec Outcome
unfolding fetch_audio send_audio
process_claimed record_id r none = fail_with record_id "No event linked to recording"
process_claimed record_id r (some event) = do
  settings ← settings_of
  if too_long settings.transcriber_max_audio_duration_s r.duration_sec
      then fail_with record_id "Recording is longer than the transcriber allows"
      else do
        fetched ← fetch_audio record_id r.storage_key
        send_audio settings record_id r.content_type fetched

abbrev pub is_done_state : State → Bool
is_done_state State.done = true
is_done_state _ = false

unfoldable pub claim_and_process : String → Recording → Exec Outcome
claim_and_process record_id r = do
  rowcount ← claim record_id
  if eqb rowcount 0
      then pure (outcome noop)
      else do event ← ask (λ _ w. find_event_of record_id w.db); process_claimed record_id r event

unfoldable pub run_found : String → Option Recording → Exec Outcome
run_found record_id none = pure (outcome noop)
run_found record_id (some r) =
    if is_done_state r.state then pure (outcome noop) else claim_and_process record_id r

unfoldable pub run_transcription : String → Exec Outcome
unfolding run_found claim_and_process
run_transcription record_id = do
  recording ← ask (λ _ w. find_recording record_id w.db)
  run_found record_id recording
