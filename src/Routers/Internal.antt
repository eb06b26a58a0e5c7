-- ===== src/Routers/Internal.antt =====
-- app/routers/internal.py: the routes that Cloud Tasks, Pub/Sub and the transcriber box call.
pub mod Uploads
use limon_backend.Base.{
  ℕ, String, Bool, true, false, Option, none, some, List, ◌==◌, ◌&&◌, not, truthy, text_or,
  is_ascii, option_eq, if◌then◌else◌,
}
use limon_backend.Models.{Recording, Db}
use limon_backend.Models.Table.{find}
use limon_backend.Runtime.Errors.{
  Error, PyFloat, finite, not_finite, Result, ok, err, http_error, type_error, overflow_error,
}
use limon_backend.Runtime.World.{Exec, pure, raise, lift, ask, ◌>>=◌, ◌>>◌, settings_of}
use limon_backend.Settings.{Settings}
use limon_backend.Storage.{delete_orphan_audio_object}
use limon_backend.Storage.Keys.{record_id_from_audio_key}
use limon_backend.Tagging.Run
use limon_backend.TaskQueue.{enqueue_transcription}
use limon_backend.Transcription.Submit
use limon_backend.Transcription.Sweep.{Summary, sweep}

-- A token that is required where one is set.
unfoldable pub check_token : Option String → Option String → Result (Unit {0})
check_token none presented = ok tt
check_token (some expected) presented =
    if option_eq presented (some expected) then ok tt else err (http_error 403)

unfoldable pub require_internal_auth : Option String → Exec (Unit {0})
unfolding check_token
require_internal_auth presented = do
  settings ← settings_of
  lift (check_token settings.internal_task_token presented)

-- `secrets.compare_digest`, which takes ASCII texts only
unfoldable pub compare_digest : String → String → Result Bool
compare_digest a b = if is_ascii a && is_ascii b then ok (a == b) else err type_error

abbrev pub or_401 : Bool → Result (Unit {0})
or_401 true = ok tt
or_401 false = err (http_error 401)

unfoldable pub check_secret : Option String → Option String → Exec (Unit {0})
unfolding compare_digest
check_secret expected presented =
    if truthy expected
    then (do
      same ← lift (compare_digest (text_or presented "") (text_or expected ""))
      lift (or_401 same))
    else raise (http_error 503)

-- The request's header, by its name.
unfoldable pub require_callback_auth : (String → Option String) → Exec (Unit {0})
unfolding check_secret
require_callback_auth headers = do
  settings ← settings_of
  check_secret settings.transcriber_callback_secret (headers settings.transcriber_callback_header)

-- The answer of `/transcripts-ready` and of `/transcripts-sweep`: 200, and the counts.
unfoldable pub transcripts_ready : (String → Option String) → Exec (ℕ × Summary)
transcripts_ready headers = do require_callback_auth headers; summary ← sweep; pure (200, summary)

-- `int(...)` of a float
unfoldable pub to_int : PyFloat → Result ℕ
to_int (finite n) = ok n
to_int not_finite = err overflow_error

-- 503 with the `Retry-After` that is known
unfoldable pub retry_response : Option PyFloat → Result (ℕ × Option ℕ)
unfolding to_int
retry_response none = ok (503, none)
retry_response (some f) = elim (to_int f) [ ok n ↦ ok (503, some n) | err x ↦ err x ]

unfoldable pub submit_response : Submit.Outcome → Result (ℕ × Option ℕ)
unfolding retry_response
submit_response o = elim o.status [
  | Submit.Status.retry ↦ retry_response o.retry_after
  | _ ↦ ok (200, none)
]

unfoldable pub transcribe : Option String → String → Exec (ℕ × Option ℕ)
unfolding submit_response
transcribe token record_id = do
  require_internal_auth token
  o ← Submit.run_transcription record_id
  lift (submit_response o)

unfoldable pub tag_response : Run.Outcome → Result (ℕ × Option ℕ)
unfolding retry_response
tag_response o = elim o.status [
  | Run.Status.retry ↦ retry_response o.retry_after
  | _ ↦ ok (200, none)
]

unfoldable pub tag : Option String → String → Exec (ℕ × Option ℕ)
unfolding tag_response
tag token event_id = do
  require_internal_auth token
  o ← Run.run_tagging event_id
  lift (tag_response o)

-- app/schemas/pubsub.py, with the two attributes that are read
pub record PubSubMessage : Type 0 where
  pub event_type : Option String
  pub object_id : Option String
  pub data_text : Option String

unfoldable pub payload_name : Option String → Exec (Option String)
payload_name data_text =
    if truthy data_text
    then (do
      name ← ask (λ e _. e.data_name (text_or data_text ""))
      pure (if truthy name then name else none))
    else pure none

-- `_object_name`
unfoldable pub object_name : PubSubMessage → Exec (Option String)
unfolding payload_name
object_name m = if truthy m.object_id then pure m.object_id else payload_name m.data_text

abbrev pub is_stored_at : String → String → Recording → Bool
is_stored_at id key r = r.id == id && r.storage_key == key

unfoldable pub finalize_row : String → String → Option Recording → Exec ℕ
finalize_row id name none = do delete_orphan_audio_object name; pure 204
finalize_row id name (some r) = do enqueue_transcription id; pure 204

unfoldable pub finalize_key : String → Option String → Exec ℕ
unfolding finalize_row
finalize_key name none = pure 204
finalize_key name (some id) = do
  recording ← ask (λ _ w. find (is_stored_at id name) w.db.recordings)
  finalize_row id name recording

unfoldable pub finalize : Option String → Exec ℕ
unfolding finalize_key
finalize none = pure 204
finalize (some name) = finalize_key name (record_id_from_audio_key name)

unfoldable pub uploaded : Option String → PubSubMessage → Exec ℕ
unfolding object_name finalize
uploaded token m = do
  require_internal_auth token
  name ← object_name m
  if option_eq m.event_type (some "OBJECT_FINALIZE") then finalize name else pure 204
