-- ===== src/TaskQueue.antt =====
-- app/services/task_queue.py: background work as Cloud Tasks.
pub mod Keeps
pub mod Cancels
use limon_backend.Base.{
  String, Bool, true, false, Option, none, some, List, [], ◌∷◌, ◌==◌, ◌&&◌, ◌||◌, contains, truthy,
  text_or, join, rstrip_slash, if◌then◌else◌,
}
use limon_backend.Settings.{Settings}
use limon_backend.Runtime.Errors.{
  Error, Result, ok, err, task_queue_error, task_queue_not_configured,
}
use limon_backend.Runtime.Wire.{Task, TaskBody, QueuedTask, Deletion, deleted, not_found, refused}
use limon_backend.Runtime.World.{
  Env, Exec, pure, raise, lift, ask, ◌>>=◌, ◌>>◌, emit, settings_of, create_task, list_tasks,
  delete_task,
}

-- The account that a task authenticates as, and the audience.
unfoldable pub oidc_of : Option String → String → Option (String × String)
oidc_of account url = if truthy account then some (text_or account "", url) else none

unfoldable pub task_to : Settings → String → TaskBody → Task
unfolding oidc_of
task_to settings path body =
    let url = join (rstrip_slash (text_or settings.tasks_worker_url "")) path in
    record { url = url; body = body; oidc_token = oidc_of settings.tasks_oidc_service_account url }

abbrev pub has_queue : Settings → Bool
has_queue s = truthy s.tasks_project && truthy s.tasks_location && truthy s.tasks_queue

-- `_create_task`
unfoldable pub create_cloud_task : String → TaskBody → Exec (Unit {0})
unfolding task_to
create_cloud_task path body = do
  settings ← settings_of
  if has_queue settings && truthy settings.tasks_worker_url
      then (do
        done ← ask (λ e w. e.creates_task w.trace (task_to settings path body))
        if done then emit (create_task (task_to settings path body)) else raise task_queue_error)
      else raise task_queue_not_configured

unfoldable pub enqueue_transcription : String → Exec (Unit {0})
enqueue_transcription record_id =
    create_cloud_task "/internal/transcribe"
      (record { event_id = none; record_id = some record_id })

unfoldable pub enqueue_tagging : String → Exec (Unit {0})
enqueue_tagging event_id =
    create_cloud_task "/internal/tag" (record { event_id = some event_id; record_id = none })

abbrev is_among : List String → Option String → Bool
is_among ids none = false
is_among ids (some id) = contains id ids

-- `_is_owned_task`
unfoldable pub is_owned_task : List String → List String → TaskBody → Bool
is_owned_task event_ids recording_ids body =
    is_among event_ids body.event_id || is_among recording_ids body.record_id

unfoldable pub deletion_result : Deletion → Result (Unit {0})
deletion_result deleted = ok tt
deletion_result not_found = ok tt
deletion_result refused = err task_queue_error

-- a task that is gone already is no error
unfoldable pub delete_queued : String → Exec (Unit {0})
delete_queued name = do
  result ← ask (λ e w. e.deletes_task w.trace name)
  emit (delete_task name)
  lift (deletion_result result)

-- the loop of `_cancel_account_tasks_sync`
unfoldable pub cancel_each : List String → List String → List QueuedTask → Exec (Unit {0})
unfolding is_owned_task delete_queued
cancel_each event_ids recording_ids [] = pure tt
cancel_each event_ids recording_ids (t ∷ ts) =
    let rest = cancel_each event_ids recording_ids ts in
    if is_owned_task event_ids recording_ids t.body then (do delete_queued t.name; rest) else rest

-- A listing that fails after some tasks is an error.
unfoldable pub listed : Bool → Result (Unit {0})
listed true = ok tt
listed false = err task_queue_error

unfoldable pub cancel_account_tasks : List String → List String → Exec (Unit {0})
unfolding cancel_each listed
cancel_account_tasks event_ids recording_ids = do
  settings ← settings_of
  if has_queue settings
      then (do
        (ts, whole) ← ask (λ e w. e.tasks w.trace)
        emit list_tasks
        cancel_each event_ids recording_ids ts
        lift (listed whole))
      else pure tt
