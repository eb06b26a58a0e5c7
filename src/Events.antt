-- ===== src/Events.antt =====
-- app/services/events.py: a user's events, and the recordings of the audio ones.
pub mod Retries
use limon_backend.Base.{
  ℕ, ◌*◌, String, Bool, true, false, Option, none, some, List, [], ◌∷◌, ◌++◌, ◌==◌, ◌&&◌, ◌||◌, not,
  option_eq, empty_or_none, is_some, truthy, if◌then◌else◌,
}
use limon_backend.Models.{Event, EventType, text, audio, Recording, State, Db}
use limon_backend.Models.Table.{find, update_where, delete_where}
use limon_backend.Runtime.Errors.{Error, Result, ok, err, integrity_error, is_task_queue_error}
use limon_backend.Runtime.World.{
  Exec, pure, raise, lift, ask, try, ◌>>=◌, ◌>>◌, modify, commit_session, utcnow,
}
use limon_backend.Storage.{presign_put}
use limon_backend.Storage.Keys.{audio_object_key}
use limon_backend.Tagging.Dispatch.{dispatch_tagging}
use limon_backend.Tags.{Patch, unset, given, patched}

abbrev pub audio_content_type : String
audio_content_type = "audio/mp4"

pub record EventCreate : Type 0 where
  pub type : EventType
  pub title : Option String
  pub description : Option String
  pub tag_ids : List String
  -- epoch milliseconds
  pub client_created_at : ℕ
  pub client_event_id : Option String
  pub duration_sec : Option ℕ

pub record EventUpdate : Type 0 where
  pub title : Patch (Option String)
  pub description : Patch (Option String)
  pub occurred_at : Patch (Option ℕ)
  pub tag_ids : Patch (Option (List String))

-- `_occurred_at`, in microseconds
abbrev pub occurred_at_of : ℕ → ℕ
occurred_at_of ms = ms * 1000

-- `event.tag_ids or not (event.title or event.description)` is false
abbrev pub wants_tagging : Event → Bool
wants_tagging x = empty_or_none x.tag_ids && (truthy x.title || truthy x.description)

unfoldable pub swallow : Error → Exec (Unit {0})
swallow x = if is_task_queue_error x then pure tt else raise x

unfoldable pub maybe_enqueue_tagging : Event → Exec (Unit {0})
unfolding swallow
maybe_enqueue_tagging x = if wants_tagging x then try (dispatch_tagging x.id) swallow else pure tt

unfoldable pub mint_for : Option Recording → Exec (Option String)
mint_for none = pure none
mint_for (some r) = do url ← presign_put r.storage_key audio_content_type; pure (some url)

-- `_mint_signed_url`
unfoldable pub mint_signed_url : Option String → Exec (Option String)
unfolding mint_for
mint_signed_url none = pure none
mint_signed_url (some id) = do
  recording ← ask (λ _ w. find (λ (r : Recording). r.id == id) w.db.recordings)
  mint_for recording

-- The query of the idempotent path.
abbrev pub is_retry_of : String → Option String → Event → Bool
is_retry_of user_id key x = x.user_id == user_id && is_some key && option_eq x.client_event_id key

abbrev pub new_recording : String → String → Option ℕ → ℕ → String → Recording
new_recording user_id key duration now id = record {
  id = id;
  user_id = user_id;
  storage_key = key;
  content_type = audio_content_type;
  byte_size = none;
  duration_sec = duration;
  state = State.pending;
  error = none;
  created_at = now;
  updated_at = now;
}

abbrev pub new_event : String → EventCreate → ℕ → String → Option String → Event
new_event user_id p now id recording_id = record {
  id = id;
  user_id = user_id;
  type = p.type;
  title = p.title;
  description = p.description;
  occurred_at = occurred_at_of p.client_created_at;
  tag_ids = some p.tag_ids;
  recording_id = recording_id;
  duration_sec = elim p.type [ audio ↦ p.duration_sec | text ↦ none ];
  suggested_location = none;
  tag_reasoning = none;
  client_event_id = p.client_event_id;
  created_at = now;
  updated_at = now;
}

abbrev pub add_event : Event → Db → Db
add_event x d = record d { events = d.events ++ x ∷ [] }

abbrev pub add_recording : Recording → Db → Db
add_recording r d = record d { recordings = d.recordings ++ r ∷ [] }

-- The URL is signed before anything is written.
unfoldable pub create_audio : String → EventCreate → Exec (Event × Option String)
create_audio user_id p = do
  record_id ← ask (λ e w. e.new_id w.trace 0)
  let key = audio_object_key user_id record_id
  url ← presign_put key audio_content_type
  now ← utcnow
  modify (add_recording (new_recording user_id key p.duration_sec now record_id))
  id ← ask (λ e w. e.new_id w.trace 1)
  let x = new_event user_id p now id (some record_id)
  modify (add_event x)
  commit_session
  pure (x, some url)

unfoldable pub create_text : String → EventCreate → Exec (Event × Option String)
create_text user_id p = do
  now ← utcnow
  id ← ask (λ e w. e.new_id w.trace 0)
  let x = new_event user_id p now id none
  modify (add_event x)
  commit_session
  maybe_enqueue_tagging x
  pure (x, none)

unfoldable pub create_new : EventType → String → EventCreate → Exec (Event × Option String)
unfolding create_audio create_text
create_new audio user_id p = create_audio user_id p
create_new text user_id p = create_text user_id p

unfoldable pub create_or_return : String → EventCreate → Option Event → Exec (Event × Option String)
unfolding create_new
create_or_return user_id p (some x) = do url ← mint_signed_url x.recording_id; pure (x, url)
create_or_return user_id p none = create_new p.type user_id p

unfoldable pub create_event : String → EventCreate → Exec (Event × Option String)
unfolding create_or_return
create_event user_id p = do
  existing ← ask (λ _ w. find (is_retry_of user_id p.client_event_id) w.db.events)
  create_or_return user_id p existing

abbrev pub owned : String → Event → Bool
owned user_id x = x.user_id == user_id

unfoldable pub has_events : String → Exec Bool
has_events user_id = ask (λ _ w. is_some (find (owned user_id) w.db.events))

abbrev pub is_owned_event : String → String → Event → Bool
is_owned_event id user_id x = x.id == id && x.user_id == user_id

unfoldable pub get_event : String → String → Exec (Option Event)
get_event id user_id = ask (λ _ w. find (is_owned_event id user_id) w.db.events)

-- A null time reaches a column that refuses it.
unfoldable pub new_time : Patch (Option ℕ) → ℕ → Result ℕ
new_time unset t = ok t
new_time (given (some t)) _ = ok t
new_time (given none) _ = err integrity_error

abbrev pub is_given : {A : Type 0} → Patch A → Bool
is_given unset = false
is_given (given _) = true

abbrev pub updated : Event → EventUpdate → ℕ → ℕ → Event
updated x p occurred now = record x {
  title = patched p.title x.title;
  description = patched p.description x.description;
  occurred_at = occurred;
  tag_ids = patched p.tag_ids x.tag_ids;
  updated_at = now;
}

abbrev pub same_id : String → Event → Bool
same_id id x = x.id == id

unfoldable pub update_event : Event → EventUpdate → Exec Event
unfolding new_time
update_event x p = do
  now ← utcnow
  occurred ← lift (new_time p.occurred_at x.occurred_at)
  let y = updated x p occurred now
  modify (λ d. record d { events = update_where (same_id x.id) (λ _. y) d.events })
  commit_session
  if is_given p.title || is_given p.description
      then (do maybe_enqueue_tagging y; pure y)
      else pure y

unfoldable pub delete_event : Event → Exec (Unit {0})
delete_event x = do
  modify (λ d. record d { events = delete_where (same_id x.id) d.events })
  commit_session
