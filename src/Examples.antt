-- ===== src/Examples.antt =====
-- A concrete deployment, its rows and its requests, and the theorems at them.
pub mod Submission
pub mod Collection
pub mod Accounts
pub mod Requests
pub mod Replays
pub mod Demo
pub mod Queue
pub mod Races
pub mod Bodies
pub mod Bucket
pub mod Trips
pub mod Tools
pub mod Services
use limon_backend.Base.{
  ℕ, String, Bool, true, false, Option, none, some, List, [], ◌∷◌, ◌==◌, if◌then◌else◌,
}
use limon_backend.Settings.{Settings}
use limon_backend.Models.{User, Recording, Event, Tag, Db, State, EventType, audio}
use limon_backend.Runtime.Errors.{finite}
use limon_backend.Runtime.Wire.{
  no_audio, audio_bytes, Request, Payload, job_form, Reply, response, Body, Deletion, deleted,
}
use limon_backend.Runtime.World.{Env, World, Claims, Trace, start}

abbrev pub settings : Settings
settings = record {
  supabase_url = some "https://p.supabase.co";
  supabase_jwt_secret = some "jwt-secret";
  supabase_service_role_key = some "service-key";
  transcriber_base_url = some "https://box/";
  transcriber_token = some "box-token";
  transcriber_callback_secret = some "callback";
  transcriber_callback_header = "X-Transcriber-Secret";
  transcriber_max_audio_duration_s = 600;
  transcriber_max_upload_bytes = 100;
  transcriber_stale_submitted_hours = 6;
  transcriber_stale_pending_minutes = 15;
  transcriber_recovery_batch_limit = 50;
  local_audio_dir = some "/audio";
  internal_task_token = some "task-token";
  tasks_project = none;
  tasks_location = none;
  tasks_queue = none;
  tasks_worker_url = none;
  tasks_oidc_service_account = none;
  gcs_bucket = none;
  gcs_signer_service_account = none;
  gcs_signed_url_ttl_seconds = 900;
  tagger_api_key = some "tagger-key";
  tagger_model = "model";
  tagger_base_url = "https://model";
}

abbrev pub sound : List ℕ
sound = 1 ∷ 2 ∷ 3 ∷ []

abbrev pub claims : Claims
claims = record { sub = some "u1"; email = none; provider = none; full_name = none; name = none }

-- The box accepts a job; every other request is answered with 404.
abbrev pub reply : Payload → Reply
reply (job_form _ _ _ _) =
    response (record { status_code = 202; retry_after = none; body = Body.submitted none none })
reply _ = response (record { status_code = 404; retry_after = none; body = Body.no_json })

-- A deployment whose database takes every commit and holds the declared lengths.
abbrev pub env : Env
env = record {
  settings = settings;
  now = λ t. 1000;
  new_id = λ t n. "new";
  commit_fails = λ t. false;
  token_algorithm = λ token. if token == "good" then some (some "HS256") else none;
  signing_key = λ url token. none;
  verify_token = λ token key algorithm audience. if key == "jwt-secret" then some claims else none;
  data_name = λ text. none;
  enforces_lengths = true;
  http = λ t q. reply q.payload;
  parse_float = λ text. some (finite 30);
  file = λ t dir key. audio_bytes sound;
  blob = λ t bucket key. no_audio;
  list_blobs = λ t bucket prefix. [];
  list_files = λ t dir prefix. [];
  deletes_audio = λ t key. true;
  escapes_root = λ dir key. false;
  dir_exists = λ t prefix. true;
  removes_dir = λ t prefix. true;
  collates = λ a b. true;
  default_credentials = λ t. true;
  attached_email = λ t. some (some "default");
  metadata_email = λ t. some "worker@project";
  sign = λ t bucket key content_type seconds signer. none;
  creates_task = λ t task. true;
  tasks = λ t. ([], true);
  deletes_task = λ t name. deleted;
}

abbrev pub user : User
user = record {
  id = "u1";
  provider = "supabase";
  email = none;
  display_name = none;
  demo_seeded_at = none;
  created_at = 1;
  updated_at = 1;
}

abbrev pub recording_in : State → Recording
recording_in s = record {
  id = "r1";
  user_id = "u1";
  storage_key = "v0/u1/r1.m4a";
  content_type = "audio/mp4";
  byte_size = none;
  duration_sec = some 12;
  state = s;
  error = none;
  created_at = 1;
  updated_at = 1;
}

abbrev pub event : Event
event = record {
  id = "x1";
  user_id = "u1";
  type = audio;
  title = none;
  description = none;
  occurred_at = 1;
  tag_ids = some ("t1" ∷ []);
  recording_id = some "r1";
  duration_sec = some 12;
  suggested_location = none;
  tag_reasoning = none;
  client_event_id = none;
  created_at = 1;
  updated_at = 1;
}

abbrev pub tag : Tag
tag = record { id = "t1"; user_id = "u1"; name = "work"; color = none }

abbrev pub rows : State → Db
rows s = record {
  users = user ∷ [];
  events = event ∷ [];
  recordings = recording_in s ∷ [];
  tags = tag ∷ [];
}

-- A session over these rows, with the recording in a state.
abbrev pub session : State → World
session s = start (rows s)
