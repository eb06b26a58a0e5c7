-- ===== src/Examples/Requests.antt =====
-- Requests to the routes.
use limon_backend.Base.{none, some, [], ◌≡◌, refl, slash_free}
use limon_backend.Models.{State, text}
use limon_backend.Models.Table.{find}
use limon_backend.Runtime.Errors.{err, http_error}
use limon_backend.Runtime.Ends.{Ends}
use limon_backend.Runtime.World.{Env}
use limon_backend.Events
use limon_backend.Events.{EventCreate, EventUpdate}
use limon_backend.Events.Retries.{Repeats, create_event_again}
use limon_backend.Routers.Events.{get_event, update_event, delete_event}
use limon_backend.Routers.Isolation.{foreign-Denied}
use limon_backend.Routers.Tags.{update_tag, delete_tag}
use limon_backend.Storage.Keys.{audio_object_key, record_id_from_audio_key, user_id_from_audio_key}
use limon_backend.Storage.Roundtrip.{audio_object_key-read}
use limon_backend.Tags.{TagUpdate, unset, given}
use limon_backend.Examples.{env, settings, session, tag}

audio_object_key-read_example :
    (record_id_from_audio_key (audio_object_key "u1" "r1") ≡ some "r1")
    × (user_id_from_audio_key (audio_object_key "u1" "r1") ≡ some "u1")
unfolding slash_free
audio_object_key-read_example = audio_object_key-read "u1" "r1" refl refl refl refl

-- A deployment with a queue and a worker.
abbrev env_with_queue : Env
env_with_queue = record env {
  settings = record settings {
    tasks_project = some "p";
    tasks_location = some "l";
    tasks_queue = some "q";
    tasks_worker_url = some "https://worker/";
  };
}

abbrev note : EventCreate
note = record {
  type = text;
  title = some "standup";
  description = none;
  tag_ids = [];
  client_created_at = 7;
  client_event_id = some "k1";
  duration_sec = none;
}

create_event_again_example :
    Ends
      (λ a v. Repeats a.0 v (Events.create_event "u1" note env v))
      (λ _ _. Unit)
      (Events.create_event "u1" note env (session State.done))
create_event_again_example = create_event_again "u1" note "k1" env env (session State.done) refl

-- A request whose only header is the callback's.
abbrev renamed : TagUpdate
renamed = record { name = given (some "mine"); color = unset }

abbrev retitled : EventUpdate
retitled = record {
  title = given (some "mine");
  description = unset;
  occurred_at = unset;
  tag_ids = unset;
}

foreign-Denied_example :
    (update_tag "u2" "t1" renamed env (session State.done)
      ≡ (err (http_error 404), session State.done))
    × (delete_tag "u2" "t1" env (session State.done) ≡ (err (http_error 404), session State.done))
    × (get_event "u2" "x1" env (session State.done) ≡ (err (http_error 404), session State.done))
    × (update_event "u2" "x1" retitled env (session State.done)
        ≡ (err (http_error 404), session State.done))
    × (delete_event "u2" "x1" env (session State.done) ≡ (err (http_error 404), session State.done))
unfolding find
foreign-Denied_example =
    foreign-Denied "u2" "t1" "x1" renamed retitled env (session State.done) tag refl refl refl
