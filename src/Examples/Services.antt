-- ===== src/Examples/Services.antt =====
-- Requests to the service, one after another.
use limon_backend.Base.{String, Option, none, some, [], ◌∷◌, refl, join}
use limon_backend.Models.{State, audio}
use limon_backend.Events.{EventCreate}
use limon_backend.Runtime.World.{Env, Trace, commit, durable}
use limon_backend.Storage.Keys.{audio_object_key}
use limon_backend.Transcription.Settled.{AckSafe}
use limon_backend.Service.{
  Arrival, served, client, create_event, transcribe, callback, Reaches, here, next,
}
use limon_backend.Service.Acknowledged.{Reaches-AckSafe}
use limon_backend.Service.Invariants.{AllKeyed}
use limon_backend.Service.Keyed.{Reaches-AllKeyed}
use limon_backend.Examples.{env, settings, rows}
use limon_backend.Examples.Collection.{env_with_job}

abbrev stored_rows : Trace
stored_rows = commit (rows State.pending) ∷ []

abbrev headers : String → Option String
headers name = some "callback"

abbrev audio_note : EventCreate
audio_note = record {
  type = audio;
  title = some "walk";
  description = none;
  tag_ids = [];
  client_created_at = 7;
  client_event_id = none;
  duration_sec = some 3;
}

abbrev env_with_signer : Env
env_with_signer = record env {
  settings = record settings { gcs_bucket = some "audio" };
  sign = λ t bucket key content_type seconds signer. some "url";
}

abbrev submission : Arrival
submission = transcribe (some "task-token") "r1"

abbrev new_note : Arrival
new_note = client (some "good") (create_event audio_note)

-- A task for the recording, a client's new audio event, and the box's callback.
abbrev after_requests : Trace
after_requests =
    served (callback headers) env_with_job
      (served new_note env_with_signer (served submission env stored_rows))

abbrev requests : Reaches stored_rows after_requests
requests =
    next (callback headers) env_with_job (next new_note env_with_signer (next submission env here))

Reaches-AckSafe_example : AckSafe after_requests
Reaches-AckSafe_example = Reaches-AckSafe requests tt

Reaches-AllKeyed_example : AllKeyed (durable after_requests)
unfolding durable audio_object_key join
Reaches-AllKeyed_example = Reaches-AllKeyed requests (refl, tt)
