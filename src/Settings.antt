-- ===== src/Settings.antt =====
-- app/core/config.py: the settings that the modelled code reads. Times are in microseconds, sizes in
-- bytes; a setting that is unset is `none`.
pub mod Cors
use limon_backend.Base.{ℕ, String, Option}

pub record Settings : Type 0 where
  pub supabase_url : Option String
  pub supabase_jwt_secret : Option String
  pub supabase_service_role_key : Option String
  pub transcriber_base_url : Option String
  pub transcriber_token : Option String
  pub transcriber_callback_secret : Option String
  pub transcriber_callback_header : String
  pub transcriber_max_audio_duration_s : ℕ
  pub transcriber_max_upload_bytes : ℕ
  pub transcriber_stale_submitted_hours : ℕ
  pub transcriber_stale_pending_minutes : ℕ
  pub transcriber_recovery_batch_limit : ℕ
  pub local_audio_dir : Option String
  pub internal_task_token : Option String
  pub tasks_project : Option String
  pub tasks_location : Option String
  pub tasks_queue : Option String
  pub tasks_worker_url : Option String
  pub tasks_oidc_service_account : Option String
  pub gcs_bucket : Option String
  pub gcs_signer_service_account : Option String
  pub gcs_signed_url_ttl_seconds : ℕ
  pub tagger_api_key : Option String
  pub tagger_model : String
  pub tagger_base_url : String
