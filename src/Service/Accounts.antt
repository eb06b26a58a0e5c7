-- ===== src/Service/Accounts.antt =====
-- Authentication and the routes of app/routers/users.py, which send no acknowledgement.
use limon_backend.Base.{ℕ, suc, String, Bool, true, false, Option, none, some, List, [], ◌∷◌}
use limon_backend.Models.{User, Recording, Tag}
use limon_backend.Runtime.Errors.{
  Error, supabase_admin_error, supabase_admin_not_configured, account_deletion,
}
use limon_backend.Runtime.Wire.{QueuedTask, Method, nothing}
use limon_backend.Runtime.Keeps.{Keeps}
use limon_backend.Runtime.World.{World, modify, send}
use limon_backend.Settings.{Settings}
use limon_backend.Auth.{key_for, decode_with, decode_for, decode_token, user_of, get_current_user}
use limon_backend.DemoData.Table.{SeedRow}
use limon_backend.DemoData.Seed.{TagMap, tag_or_new, seed_tags, add_seed_events, seed_demo_data}
use limon_backend.Events.{has_events}
use limon_backend.Storage.{
  delete_files, delete_blobs, delete_local, delete_user_audio_sync, delete_user_audio,
}
use limon_backend.SupabaseAdmin.{delete_at, delete_auth_user}
use limon_backend.Tags.{get_tag_by_name}
use limon_backend.TaskQueue.{delete_queued, cancel_each, cancel_account_tasks}
use limon_backend.Transcription.Settled.{AcksNothing}
use limon_backend.Service.Invariants.{IsServiceInvariant, deleted_keys, service_steps}
use limon_backend.Users
use limon_backend.Users.{
  UserUpdate, get_user, user_or_new, get_or_create_user, cleanup_failed, clean_up, delete_owned,
  delete_account, cascade_delete,
}
use limon_backend.Routers
use limon_backend.Routers.Users.{deletion_to_502, seed_if_empty}
use limon_backend.Service.Machines.{delete_one-Keeps}

module _ {P : World → Type 0} (inv : IsServiceInvariant AcksNothing P) where
  -- Authentication.
  key_for-Keeps :
      (s : Settings) (url token algorithm : String) → Keeps P (key_for s url token algorithm)
  unfolding key_for
  key_for-Keeps s url token algorithm = search service_steps depth 8

  decode_with-Keeps :
      (s : Settings) (url token : String) (algorithm : Option String)
      → Keeps P (decode_with s url token algorithm)
  unfolding decode_with
  decode_with-Keeps s url token none = search service_steps
  decode_with-Keeps s url token (some algorithm) = search (service_steps, key_for-Keeps)

  decode_for-Keeps :
      (s : Settings) (url : Option String) (token : String) → Keeps P (decode_for s url token)
  unfolding decode_for
  decode_for-Keeps s none token = search service_steps
  decode_for-Keeps s (some url) token = search (service_steps, decode_with-Keeps)

  user_or_new-Keeps :
      (sub provider : String) (email display_name : Option String) (found : Option User)
      → Keeps P (user_or_new sub provider email display_name found)
  unfolding user_or_new
  user_or_new-Keeps sub provider email display_name none = search service_steps depth 8
  user_or_new-Keeps sub provider email display_name (some u) = search service_steps

  pub get_current_user-Keeps : (token : Option String) → Keeps P (get_current_user token)
  unfolding get_current_user user_of decode_token get_or_create_user get_user
  get_current_user-Keeps none = search service_steps
  get_current_user-Keeps (some token) =
      search (service_steps, decode_for-Keeps, user_or_new-Keeps) depth 8

  -- Accounts.
  cancel_each-Keeps :
      (event_ids recording_ids : List String) (ts : List QueuedTask)
      → Keeps P (cancel_each event_ids recording_ids ts)
  unfolding cancel_each delete_queued
  cancel_each-Keeps event_ids recording_ids [] = search service_steps
  cancel_each-Keeps event_ids recording_ids (t ∷ ts) =
      let rest = cancel_each-Keeps event_ids recording_ids ts in search service_steps depth 8

  cancel_account_tasks-Keeps :
      (event_ids recording_ids : List String)
      → Keeps P (cancel_account_tasks event_ids recording_ids)
  unfolding cancel_account_tasks
  cancel_account_tasks-Keeps event_ids recording_ids =
      search (service_steps, cancel_each-Keeps) depth 8

  delete_files-Keeps : (prefix : String) (names : List String) → Keeps P (delete_files prefix names)
  unfolding delete_files
  delete_files-Keeps prefix [] = search service_steps
  delete_files-Keeps prefix (name ∷ names) =
      let rest = delete_files-Keeps prefix names in search (service_steps, delete_one-Keeps)

  delete_blobs-Keeps :
      (id : String) (names : List (Option String)) → Keeps P (delete_blobs id names)
  unfolding delete_blobs
  delete_blobs-Keeps id [] = search service_steps
  delete_blobs-Keeps id (none ∷ names) = search service_steps
  delete_blobs-Keeps id (some name ∷ names) =
      let rest = delete_blobs-Keeps id names in search (service_steps, delete_one-Keeps)

  delete_local-Keeps : (root id prefix : String) → Keeps P (delete_local root id prefix)
  unfolding delete_local
  delete_local-Keeps root id prefix = search (service_steps, delete_files-Keeps) depth 12

  delete_user_audio_sync-Keeps : (id prefix : String) → Keeps P (delete_user_audio_sync id prefix)
  unfolding delete_user_audio_sync
  delete_user_audio_sync-Keeps id prefix =
      search (service_steps, delete_local-Keeps, delete_blobs-Keeps) depth 8

  delete_user_audio-Keeps : (id : String) (keys : List String) → Keeps P (delete_user_audio id keys)
  unfolding delete_user_audio
  delete_user_audio-Keeps id keys = search (service_steps, delete_user_audio_sync-Keeps)

  -- A request with no payload.
  bare-Keeps :
      (m : Method) (url token : String)
      → Keeps P (send (record { method = m; url = url; token = token; payload = nothing }))
  bare-Keeps m url token = inv.sends _ (λ d. tt)

  delete_at-Keeps : (url : Option String) (sub : String) → Keeps P (delete_at url sub)
  unfolding delete_at
  delete_at-Keeps none sub = search service_steps
  delete_at-Keeps (some url) sub = search (service_steps, bare-Keeps) depth 8

  clean_up-Keeps :
      (id : String) (event_ids : List String) (recordings : List Recording)
      → Keeps P (clean_up id event_ids recordings)
  unfolding clean_up cleanup_failed
  clean_up-Keeps id event_ids recordings =
      search (service_steps, cancel_account_tasks-Keeps, delete_user_audio-Keeps) depth 8

  cascade_delete-Keeps : (id : String) → Keeps P (modify (cascade_delete id))
  cascade_delete-Keeps id = inv.changes _ (λ d h. deleted_keys _ d.recordings h)

  delete_owned-Keeps : (found : Option User) → Keeps P (delete_owned found)
  unfolding delete_owned delete_auth_user
  delete_owned-Keeps none = search service_steps
  delete_owned-Keeps (some u) =
      search (service_steps, cascade_delete-Keeps, clean_up-Keeps, delete_at-Keeps) depth 10

  deletion_to_502-Keeps : (x : Error) → Keeps P (deletion_to_502 x)
  unfolding deletion_to_502
  deletion_to_502-Keeps supabase_admin_error = search service_steps
  deletion_to_502-Keeps supabase_admin_not_configured = search service_steps
  deletion_to_502-Keeps account_deletion = search service_steps
  deletion_to_502-Keeps _ = search service_steps

  pub delete_me-Keeps : (u : User) → Keeps P (Routers.Users.delete_me u)
  unfolding Routers.Users.delete_me delete_account get_user
  delete_me-Keeps u = search (service_steps, delete_owned-Keeps, deletion_to_502-Keeps) depth 8

  -- Demo data.
  tag_or_new-Keeps :
      (id name color : String) (drawn : ℕ) (found : Option Tag)
      → Keeps P (tag_or_new id name color drawn found)
  unfolding tag_or_new
  tag_or_new-Keeps id name color drawn none = search service_steps
  tag_or_new-Keeps id name color drawn (some t) = search service_steps

  seed_tags-Keeps :
      (id : String) (tags : TagMap) (drawn : ℕ) (names : List (String × String))
      → Keeps P (seed_tags id tags drawn names)
  unfolding seed_tags get_tag_by_name
  seed_tags-Keeps id tags drawn [] = search service_steps
  seed_tags-Keeps id tags drawn ((name, color) ∷ names) =
      let rest = λ (m : TagMap) (n : ℕ). seed_tags-Keeps id m n names in
      search (service_steps, tag_or_new-Keeps) depth 8

  add_seed_events-Keeps :
      (id : String) (tags : TagMap) (drawn : ℕ) (rows : List SeedRow)
      → Keeps P (add_seed_events id tags drawn rows)
  unfolding add_seed_events
  add_seed_events-Keeps id tags drawn [] = search service_steps
  add_seed_events-Keeps id tags drawn (row ∷ rows) =
      let rest = add_seed_events-Keeps id tags (suc drawn) rows in search service_steps depth 10

  seed_demo_data-Keeps : (u : User) → Keeps P (seed_demo_data u)
  unfolding seed_demo_data
  seed_demo_data-Keeps u = search (service_steps, seed_tags-Keeps, add_seed_events-Keeps) depth 8

  seed_if_empty-Keeps : (u : User) (occupied : Bool) → Keeps P (seed_if_empty u occupied)
  unfolding seed_if_empty
  seed_if_empty-Keeps u true = search service_steps
  seed_if_empty-Keeps u false = search (service_steps, seed_demo_data-Keeps)

  pub create_my_demo_data-Keeps : (u : User) → Keeps P (Routers.Users.create_my_demo_data u)
  unfolding Routers.Users.create_my_demo_data has_events
  create_my_demo_data-Keeps u = search (service_steps, seed_if_empty-Keeps)

  pub update_me-Keeps : (u : User) (p : UserUpdate) → Keeps P (Routers.Users.update_me u p)
  unfolding Routers.Users.update_me Users.update_user
  update_me-Keeps u p = search service_steps depth 8

  pub get_me-Keeps : (u : User) → Keeps P (Routers.Users.get_me u)
  unfolding Routers.Users.get_me
  get_me-Keeps u = search service_steps
