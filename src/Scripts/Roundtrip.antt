-- ===== src/Scripts/Roundtrip.antt =====
-- scripts/transcriber/roundtrip.py: one recording through submission, collection by polling and the
-- verdict, over a throwaway database. Times are in microseconds.
pub mod Polling
pub mod Verdict
pub mod Gate
pub mod Scope
use limon_backend.Base.{
  ℕ, zero, suc, ◌+◌, String, Bool, true, false, Option, none, some, List, [], ◌∷◌, ◌++◌, ◌&&◌, ◌||◌,
  join, ltb, truthy, if◌then◌else◌,
}
use limon_backend.Models.{User, Recording, Event, audio, Db, State}
use limon_backend.Models.Table.{find}
use limon_backend.Runtime.Errors.{db_error}
use limon_backend.Runtime.Wire.{audio_bytes}
use limon_backend.Runtime.World.{
  Env, World, Exec, pure, raise, ask, ◌>>=◌, ◌>>◌, modify, emit, sleep, commit_session, settings_of,
  utcnow, empty_db,
}
use limon_backend.Transcriber
use limon_backend.Events.{add_event, add_recording}
use limon_backend.Transcription.Rows.{find_recording}
use limon_backend.Transcription.Submit.{Status, submitted, run_transcription}
use limon_backend.Transcription.Collect.{
  CollectionResult, collect_transcripts, same_event, is_done_state,
}

-- The parsed command line: the clip's suffix, and its bytes where it is a file.
pub record Args : Type 0 where
  pub clip_suffix : String
  pub clip : Option (List ℕ)
  pub timeout : ℕ
  pub interval : ℕ

-- `audio_storage.download = _download`: every read of audio gives the clip.
abbrev pub with_clip : List ℕ → Env → Env
with_clip bytes e = record e {
  settings = record e.settings { local_audio_dir = some "clip" };
  file = λ _ _ _. audio_bytes bytes;
}

abbrev pub script_user : ℕ → User
script_user now = record {
  id = "roundtrip";
  provider = "google";
  email = some "roundtrip@example.com";
  display_name = none;
  demo_seeded_at = none;
  created_at = now;
  updated_at = now;
}

abbrev pub script_recording : Args → ℕ → String → Recording
script_recording args now id = record {
  id = id;
  user_id = "roundtrip";
  storage_key = join "v0/roundtrip/clip" args.clip_suffix;
  content_type = "application/octet-stream";
  byte_size = none;
  duration_sec = none;
  state = State.pending;
  error = none;
  created_at = now;
  updated_at = now;
}

abbrev pub script_event : ℕ → String → String → Event
script_event now id recording_id = record {
  id = id;
  user_id = "roundtrip";
  type = audio;
  title = none;
  description = none;
  occurred_at = now;
  tag_ids = some [];
  recording_id = some recording_id;
  duration_sec = none;
  suggested_location = none;
  tag_reasoning = none;
  client_event_id = none;
  created_at = now;
  updated_at = now;
}

-- The rows that the script adds, and the ids of the recording and of the event.
unfoldable pub seed : Args → Exec (String × String)
seed args = do
  now ← utcnow
  modify (λ d. record d { users = d.users ++ script_user now ∷ [] })
  record_id ← ask (λ e w. e.new_id w.trace 0)
  modify (add_recording (script_recording args now record_id))
  event_id ← ask (λ e w. e.new_id w.trace 1)
  modify (add_event (script_event now event_id record_id))
  commit_session
  pure (record_id, event_id)

-- How the polling loop is left; `unfinished` where the rounds of the model run out.
pub data Polled : Type 0 where
  collected : CollectionResult → Polled
  timed_out unfinished : Polled

-- `result.written or result.failed`
abbrev pub is_ready : CollectionResult → Bool
is_ready result = ltb 0 result.written || ltb 0 result.failed

-- `while time.time() < deadline`, by the rounds left.
unfoldable pub poll : ℕ → Args → ℕ → String → Exec Polled
poll zero args deadline record_id = pure unfinished
poll (suc rounds) args deadline record_id = do
  now ← utcnow
  if ltb now deadline
      then (do
        result ← collect_transcripts (some (record_id ∷ []))
        if is_ready result
            then pure (collected result)
            else (do emit (sleep args.interval); poll rounds args deadline record_id))
      else pure timed_out

abbrev pub present : {A : Type 0} → Option A → Exec A
present none = raise db_error
present (some a) = pure a

-- `session.refresh` of an object; SQLAlchemy raises where its row is gone.
unfoldable pub refresh : {A : Type 0} → (Db → Option A) → Exec A
refresh query = do found ← ask (λ _ w. query w.db); present found

abbrev pub verdict : Recording → Event → Bool
verdict recording event = is_done_state recording.state && truthy event.description

abbrev pub exit_code : Bool → ℕ
exit_code ok = if ok then 0 else 1

-- The script after the loop.
unfoldable pub report : String → String → Polled → Exec (Option ℕ)
unfolding refresh
report record_id event_id unfinished = pure none
report record_id event_id timed_out = pure (some 1)
report record_id event_id (collected result) = do
  event ← refresh (λ d. find (same_event event_id) d.events)
  recording ← refresh (find_recording record_id)
  leftover ← Transcriber.get_job record_id
  pure (some (exit_code (verdict recording event)))

abbrev pub is_submitted : Status → Bool
is_submitted submitted = true
is_submitted _ = false

-- The script from the seeded rows on.
unfoldable pub cycle : ℕ → Args → String → String → Exec (Option ℕ)
unfolding poll report
cycle rounds args record_id event_id = do
  outcome ← run_transcription record_id
  if is_submitted outcome.status
      then (do
        start ← utcnow
        polled ← poll rounds args (start + args.timeout) record_id
        report record_id event_id polled)
      else pure (some 1)

-- A call with the environment changed.
unfoldable pub under : {A : Type 0} → (Env → Env) → Exec A → Exec A
under f m e w = m (f e) w

unfoldable pub run_clip : ℕ → Args → Option (List ℕ) → Exec (Option ℕ)
unfolding seed cycle under
run_clip rounds args none = pure (some 2)
run_clip rounds args (some bytes) =
    under (with_clip bytes)
      (do (record_id, event_id) ← seed args; cycle rounds args record_id event_id)

-- `main`: the exit code, or `none` where the rounds of the model run out.
unfoldable pub main : ℕ → Args → Exec (Option ℕ)
unfolding run_clip
main rounds args = do
  settings ← settings_of
  if truthy settings.transcriber_base_url && truthy settings.transcriber_token
      then run_clip rounds args args.clip
      else pure (some 2)

-- The session of the throwaway database.
abbrev pub throwaway : World
throwaway = record { db = empty_db; trace = [] }
