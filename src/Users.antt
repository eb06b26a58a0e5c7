-- ===== src/Users.antt =====
-- app/services/users.py: accounts.
pub mod Deletion
use limon_backend.Base.{
  String, Bool, true, false, Option, none, some, List, [], ◌∷◌, ◌++◌, ◌==◌, ◌||◌, not, map, keep,
  if◌then◌else◌,
}
use limon_backend.Models.{User, Event, Recording, Tag, Db}
use limon_backend.Models.Table.{find, update_where, delete_where}
use limon_backend.Runtime.Errors.{Error, account_deletion, audio_cleanup, is_task_queue_error}
use limon_backend.Runtime.World.{
  Exec, pure, raise, ask, try, ◌>>=◌, ◌>>◌, modify, commit_session, rollback, utcnow,
}
use limon_backend.Storage.{delete_user_audio}
use limon_backend.SupabaseAdmin.{delete_auth_user}
use limon_backend.TaskQueue.{cancel_account_tasks}
use limon_backend.Tags.{Patch, unset, given, patched}

abbrev pub is_user : String → User → Bool
is_user id u = u.id == id

unfoldable pub get_user : String → Exec (Option User)
get_user id = ask (λ _ w. find (is_user id) w.db.users)

unfoldable pub user_or_new :
    String → String → Option String → Option String → Option User → Exec User
user_or_new sub provider email display_name (some u) = pure u
user_or_new sub provider email display_name none = do
  now ← utcnow
  let u : User = record {
    id = sub;
    provider = provider;
    email = email;
    display_name = display_name;
    demo_seeded_at = none;
    created_at = now;
    updated_at = now;
  }
  modify (λ d. record d { users = d.users ++ u ∷ [] })
  commit_session
  pure u

unfoldable pub get_or_create_user : String → String → Option String → Option String → Exec User
unfolding user_or_new
get_or_create_user sub provider email display_name = do
  found ← get_user sub
  user_or_new sub provider email display_name found

pub record UserUpdate : Type 0 where
  pub email : Patch (Option String)
  pub display_name : Patch (Option String)

unfoldable pub update_user : User → UserUpdate → Exec User
update_user u p = do
  now ← utcnow
  let v : User = record u {
    email = patched p.email u.email;
    display_name = patched p.display_name u.display_name;
    updated_at = now;
  }
  modify (λ d. record d { users = update_where (is_user u.id) (λ _. v) d.users })
  commit_session
  pure v

-- The rows that the foreign keys delete with a user: `ON DELETE CASCADE`.
abbrev pub cascade_delete : String → Db → Db
cascade_delete id d = record {
  users = delete_where (is_user id) d.users;
  events = delete_where (λ (x : Event). x.user_id == id) d.events;
  recordings = delete_where (λ (r : Recording). r.user_id == id) d.recordings;
  tags = delete_where (λ (t : Tag). t.user_id == id) d.tags;
}

abbrev pub is_audio_cleanup : Error → Bool
is_audio_cleanup audio_cleanup = true
is_audio_cleanup _ = false

unfoldable pub cleanup_failed : Error → Exec (Unit {0})
cleanup_failed x =
    if is_task_queue_error x || is_audio_cleanup x
    then (do rollback; raise account_deletion)
    else raise x

-- The queue and the audio, before anything that cannot be undone.
unfoldable pub clean_up : String → List String → List Recording → Exec (Unit {0})
unfolding cleanup_failed
clean_up id event_ids recordings =
    try
      (do
        cancel_account_tasks event_ids (map (λ (r : Recording). r.id) recordings)
        delete_user_audio id (map (λ (r : Recording). r.storage_key) recordings))
      cleanup_failed

unfoldable pub delete_owned : Option User → Exec (Unit {0})
unfolding clean_up
delete_owned none = pure tt
delete_owned (some u) = do
  event_ids ←
      ask (λ _ w. map (λ (x : Event). x.id) (keep (λ (x : Event). x.user_id == u.id) w.db.events))
  recordings ← ask (λ _ w. keep (λ (r : Recording). r.user_id == u.id) w.db.recordings)
  clean_up u.id event_ids recordings
  delete_auth_user u.id
  modify (cascade_delete u.id)
  commit_session

unfoldable pub delete_account : String → Exec (Unit {0})
unfolding delete_owned
delete_account user_id = do owned_user ← get_user user_id; delete_owned owned_user
