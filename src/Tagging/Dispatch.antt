-- ===== src/Tagging/Dispatch.antt =====
-- `dispatch_tagging` of app/services/tagging.py: a Cloud Task, or a background task of this process
-- where no queue is configured. The background task runs later, in a session of its own.
use limon_backend.Base.{String}
use limon_backend.Runtime.Errors.{Error, task_queue_not_configured}
use limon_backend.Runtime.World.{Exec, raise, try, emit, local_tagging}
use limon_backend.TaskQueue.{enqueue_tagging}

unfoldable pub run_locally : String → Error → Exec (Unit {0})
run_locally event_id task_queue_not_configured = emit (local_tagging event_id)
run_locally event_id x = raise x

unfoldable pub dispatch_tagging : String → Exec (Unit {0})
unfolding run_locally
dispatch_tagging event_id = try (enqueue_tagging event_id) (run_locally event_id)
