-- ===== src/Examples/Queue.antt =====
-- The cancellation of queued tasks.
use limon_backend.Base.{true, none, some, [], ◌∷◌, refl}
use limon_backend.Models.{State}
use limon_backend.Runtime.Wire.{QueuedTask}
use limon_backend.Runtime.World.{Env, list_tasks}
use limon_backend.TaskQueue.{cancel_account_tasks}
use limon_backend.TaskQueue.Cancels.{Cancels, owned, cancel_account_tasks-Cancels}
use limon_backend.Examples.{env, session, settings}

abbrev ours : QueuedTask
ours = record { name = "1"; body = record { event_id = none; record_id = some "r1" } }

abbrev others : QueuedTask
others = record { name = "2"; body = record { event_id = some "x9"; record_id = none } }

abbrev env_with_queue : Env
env_with_queue = record env {
  settings = record settings {
    tasks_project = some "project";
    tasks_location = some "location";
    tasks_queue = some "queue";
  };
  tasks = λ t. (ours ∷ others ∷ [], true);
}

cancel_account_tasks-Cancels_example :
    Cancels
      ("x1" ∷ [])
      ("r1" ∷ [])
      (owned ("x1" ∷ []) ("r1" ∷ []) (ours ∷ others ∷ []))
      (list_tasks ∷ (session State.done).trace)
      (cancel_account_tasks ("x1" ∷ []) ("r1" ∷ []) env_with_queue (session State.done))
cancel_account_tasks-Cancels_example =
    cancel_account_tasks-Cancels ("x1" ∷ []) ("r1" ∷ []) (ours ∷ others ∷ []) true env_with_queue
      (session State.done) refl refl
