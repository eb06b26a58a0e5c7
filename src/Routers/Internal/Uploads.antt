-- ===== src/Routers/Internal/Uploads.antt =====
-- What a notification about an uploaded object starts.
use limon_backend.Base.{String, none, some}
use limon_backend.Runtime.Wire.{Task}
use limon_backend.Settings.{Settings}
use limon_backend.Runtime.World.{World}
use limon_backend.TaskQueue.{task_to}
use limon_backend.Routers.Internal.{PubSubMessage}

-- The announcement of an object of this name.
abbrev pub finalized : String → PubSubMessage
finalized key = record {
  event_type = some "OBJECT_FINALIZE";
  object_id = some key;
  data_text = none;
}

-- The task that asks for a recording's transcription.
abbrev pub transcription_task : Settings → String → Task
transcription_task settings id =
    task_to settings "/internal/transcribe" (record { event_id = none; record_id = some id })
