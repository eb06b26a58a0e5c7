-- ===== src/TaskQueue/Keeps.antt =====
-- Queueing changes no row: it keeps whatever its calls keep.
use limon_backend.Base.{String}
use limon_backend.Runtime.Wire.{Task, TaskBody}
use limon_backend.Runtime.World.{World, emit, create_task}
use limon_backend.Runtime.Keeps.{Keeps, keeps_rules}
use limon_backend.TaskQueue.{create_cloud_task, enqueue_transcription, enqueue_tagging}

module _ (P : World → Type 0) (creates : (t : Task) → Keeps P (emit (create_task t))) where
  create_cloud_task-Keeps :
      (path : String) (body : TaskBody) → Keeps P (create_cloud_task path body)
  unfolding create_cloud_task
  create_cloud_task-Keeps path body = search (keeps_rules, creates)

  pub enqueue_transcription-Keeps : (id : String) → Keeps P (enqueue_transcription id)
  unfolding enqueue_transcription
  enqueue_transcription-Keeps id = create_cloud_task-Keeps _ _

  pub enqueue_tagging-Keeps : (id : String) → Keeps P (enqueue_tagging id)
  unfolding enqueue_tagging
  enqueue_tagging-Keeps id = create_cloud_task-Keeps _ _
