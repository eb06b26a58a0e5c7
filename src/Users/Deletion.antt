-- ===== src/Users/Deletion.antt =====
-- Deleting an account: in which order things go, and what is left.
use limon_backend.Base.{
  String, Bool, false, Option, none, some, List, [], ◌∷◌, ◌≡◌, refl, arith, ◌==◌, any,
}
use limon_backend.Models.{User, Tag, Event, Recording, Db}
use limon_backend.Models.Table.{find, delete_where}
use limon_backend.Runtime.Errors.{Error}
use limon_backend.Runtime.World.{
  Env, World, ◌>>=◌, durable, modify, commit_session, rollback, emit, send, delete_task, list_tasks,
  delete_audio,
}
use limon_backend.Runtime.Ends.{Ends}
use limon_backend.Runtime.Keeps.{Keeps, keeps_rules}
use limon_backend.Runtime.Triple.{Triple, Triple-pure, Triple-ask, Triple-keeps, Triple-bind}
use limon_backend.Runtime.Wire.{Request, QueuedTask}
use limon_backend.Storage.{
  delete_one, delete_files, delete_blobs, delete_local, delete_user_audio, delete_user_audio_sync,
}
use limon_backend.SupabaseAdmin.{delete_at, delete_auth_user}
use limon_backend.TaskQueue.{cancel_each, delete_queued, cancel_account_tasks}
use limon_backend.Users.{
  delete_account, delete_owned, clean_up, cleanup_failed, cascade_delete, get_user, is_user,
}

any-delete_where {ℓ} : {A : Type ℓ} (p : A → Bool) (xs : List A) → any p (delete_where p xs) ≡ false
unfolding delete_where
any-delete_where p [] = refl
any-delete_where p (x ∷ xs) = ground (arith, any-delete_where p xs)

-- No row of any table is this user's.
pub record IsGone (id : String) (d : Db) : Type 0 where
  pub no_user : any (is_user id) d.users ≡ false
  pub no_event : any (λ (x : Event). x.user_id == id) d.events ≡ false
  pub no_recording : any (λ (r : Recording). r.user_id == id) d.recordings ≡ false
  pub no_tag : any (λ (t : Tag). t.user_id == id) d.tags ≡ false

pub cascade_delete-IsGone : (id : String) (d : Db) → IsGone id (cascade_delete id d)
cascade_delete-IsGone id d = record {
  no_user = any-delete_where (is_user id) d.users;
  no_event = any-delete_where (λ (x : Event). x.user_id == id) d.events;
  no_recording = any-delete_where (λ (r : Recording). r.user_id == id) d.recordings;
  no_tag = any-delete_where (λ (t : Tag). t.user_id == id) d.tags;
}

-- The rows that are stored.
abbrev Kept : Db → World → Type 0
Kept d w = durable w.trace ≡ d

module _ (d : Db) where
  emit_delete_task-Keeps : (name : String) → Keeps (Kept d) (emit (delete_task name))
  unfolding emit durable
  emit_delete_task-Keeps name = record { at = λ e w h. h }

  emit_list_tasks-Keeps : Keeps (Kept d) (emit list_tasks)
  unfolding emit durable
  emit_list_tasks-Keeps = record { at = λ e w h. h }

  emit_delete_audio-Keeps : (key : String) → Keeps (Kept d) (emit (delete_audio key))
  unfolding emit durable
  emit_delete_audio-Keeps key = record { at = λ e w h. h }

  send-Keeps : (q : Request) → Keeps (Kept d) (send q)
  unfolding send durable
  send-Keeps q = record { at = λ e w h. h }

  rollback-Keeps : Keeps (Kept d) rollback
  unfolding rollback
  rollback-Keeps = record { at = λ e w h. h }

  cancel_each-Keeps :
      (events recordings : List String) (ts : List QueuedTask)
      → Keeps (Kept d) (cancel_each events recordings ts)
  unfolding cancel_each delete_queued
  cancel_each-Keeps events recordings [] = search keeps_rules
  cancel_each-Keeps events recordings (t ∷ ts) =
      let rest = cancel_each-Keeps events recordings ts in
      search (keeps_rules, emit_delete_task-Keeps) depth 8

  cancel_account_tasks-Keeps :
      (events recordings : List String) → Keeps (Kept d) (cancel_account_tasks events recordings)
  unfolding cancel_account_tasks
  cancel_account_tasks-Keeps events recordings =
      search (keeps_rules, emit_list_tasks-Keeps, cancel_each-Keeps) depth 8

  delete_one-Keeps : (key : String) → Keeps (Kept d) (delete_one key)
  unfolding delete_one
  delete_one-Keeps key = search (keeps_rules, emit_delete_audio-Keeps)

  delete_files-Keeps :
      (prefix : String) (names : List String) → Keeps (Kept d) (delete_files prefix names)
  unfolding delete_files
  delete_files-Keeps prefix [] = search keeps_rules
  delete_files-Keeps prefix (name ∷ names) =
      let rest = delete_files-Keeps prefix names in search (keeps_rules, delete_one-Keeps)

  delete_blobs-Keeps :
      (user : String) (names : List (Option String)) → Keeps (Kept d) (delete_blobs user names)
  unfolding delete_blobs
  delete_blobs-Keeps user [] = search keeps_rules
  delete_blobs-Keeps user (none ∷ names) = search keeps_rules
  delete_blobs-Keeps user (some name ∷ names) =
      let rest = delete_blobs-Keeps user names in search (keeps_rules, delete_one-Keeps)

  delete_local-Keeps : (root user prefix : String) → Keeps (Kept d) (delete_local root user prefix)
  unfolding delete_local
  delete_local-Keeps root user prefix = search (keeps_rules, delete_files-Keeps) depth 10

  delete_user_audio-Keeps :
      (user : String) (keys : List String) → Keeps (Kept d) (delete_user_audio user keys)
  unfolding delete_user_audio delete_user_audio_sync
  delete_user_audio-Keeps user keys =
      search (keeps_rules, delete_local-Keeps, delete_blobs-Keeps) depth 10

  cleanup_failed-Keeps : (x : Error) → Keeps (Kept d) (cleanup_failed x)
  unfolding cleanup_failed
  cleanup_failed-Keeps x = search (keeps_rules, rollback-Keeps)

  clean_up-Keeps :
      (id : String) (events : List String) (rs : List Recording)
      → Keeps (Kept d) (clean_up id events rs)
  unfolding clean_up
  clean_up-Keeps id events rs =
      search
        (keeps_rules, cancel_account_tasks-Keeps, delete_user_audio-Keeps, cleanup_failed-Keeps)

  delete_at-Keeps : (url : Option String) (id : String) → Keeps (Kept d) (delete_at url id)
  unfolding delete_at
  delete_at-Keeps none id = search keeps_rules
  delete_at-Keeps (some url) id = search (keeps_rules, send-Keeps) depth 8

  delete_auth_user-Keeps : (id : String) → Keeps (Kept d) (delete_auth_user id)
  unfolding delete_auth_user
  delete_auth_user-Keeps id = search (keeps_rules, delete_at-Keeps)

  final_delete :
      (id : String)
      → Triple
          (Kept d)
          (modify (cascade_delete id) >>= λ _. commit_session)
          (λ _ w. IsGone id (durable w.trace))
          (λ _. Kept d)
  unfolding modify commit_session durable ◌>>=◌
  final_delete id = record { at = λ e w h. ground (arith, cascade_delete-IsGone id w.db) }

-- What a deletion leaves of an account's rows, for the row that it read.
abbrev pub Leaves : Db → Option User → World → Type 0
Leaves d none w = Kept d w
Leaves d (some u) w = IsGone u.id (durable w.trace)

delete_owned-Triple :
    (d : Db) (found : Option User)
    → Triple (Kept d) (delete_owned found) (λ _. Leaves d found) (λ _. Kept d)
unfolding delete_owned
delete_owned-Triple d none = Triple-pure _ (λ w h. h)
delete_owned-Triple d (some u) =
    Triple-bind (λ _. Kept d) (Triple-ask _ (λ e w h. h))
      λ events.
        Triple-bind (λ _. Kept d) (Triple-ask _ (λ e w h. h))
          λ rs.
            Triple-bind (λ _. Kept d) (Triple-keeps (clean_up-Keeps d u.id events rs))
              λ _.
                Triple-bind (λ _. Kept d) (Triple-keeps (delete_auth_user-Keeps d u.id))
                  λ _. final_delete d u.id

-- Deleting an account is all or nothing for the stored rows: if the call returns, and the session
-- saw the account, no stored user, event, recording or tag is the account's; if it saw none, or the
-- call raises, whatever the queue, the storage, Supabase and the database answered, the stored rows
-- are as they were.
pub delete_account-Leaves :
    (id : String) (e : Env) (w : World)
    → Ends
        (λ _. Leaves (durable w.trace) (find (is_user id) w.db.users))
        (λ _ w'. durable w'.trace ≡ durable w.trace)
        (delete_account id e w)
unfolding delete_account get_user ◌>>=◌
delete_account-Leaves id e w = (delete_owned-Triple (durable w.trace) _).at e w refl
