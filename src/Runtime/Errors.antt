-- ===== src/Runtime/Errors.antt =====
-- The exceptions that the services raise and catch, and a call's result.
use limon_backend.Base.{ℕ, Option, Bool, true, false}

-- A float that `int` can be applied to: a finite one with its whole part, or an infinity or a NaN.
pub data PyFloat : Type 0 where
  finite : ℕ → PyFloat
  not_finite : PyFloat

pub data Error : Type 0 where
  -- app/services/transcriber.py
  transcriber_error transcriber_not_configured endpoint_unavailable : Error
  endpoint_busy : Option PyFloat → Error
  audio_rejected audio_too_large job_conflict unauthorized : Error
  -- app/services/audio_storage.py and app/services/storage.py
  audio_not_found audio_storage_not_configured storage_not_configured audio_cleanup : Error
  -- app/services/task_queue.py
  task_queue_error task_queue_not_configured : Error
  -- app/services/tagger.py
  tagger_not_configured tagger_unavailable tagger_response : Error
  tagger_busy rate_limited : Option PyFloat → Error
  -- app/services/supabase_admin.py and app/services/users.py
  supabase_admin_error supabase_admin_not_configured account_deletion : Error
  -- an `HTTPException` with its status
  http_error : ℕ → Error
  -- Python's and the database's
  db_error data_error integrity_error value_error key_error type_error overflow_error : Error
  -- one of the operating system or of a library of the cloud, that no clause names
  library_error : Error

-- `except TranscriberError`: the class and its subclasses.
abbrev pub is_transcriber_error : Error → Bool
is_transcriber_error transcriber_error = true
is_transcriber_error transcriber_not_configured = true
is_transcriber_error endpoint_unavailable = true
is_transcriber_error (endpoint_busy _) = true
is_transcriber_error audio_rejected = true
is_transcriber_error audio_too_large = true
is_transcriber_error job_conflict = true
is_transcriber_error unauthorized = true
is_transcriber_error _ = false

-- `except TaskQueueError`
abbrev pub is_task_queue_error : Error → Bool
is_task_queue_error task_queue_error = true
is_task_queue_error task_queue_not_configured = true
is_task_queue_error _ = false

pub data Result {ℓ} (A : Type ℓ) : Type ℓ where
  ok : A → Result A
  err : Error → Result A
