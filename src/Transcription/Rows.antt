-- ===== src/Transcription/Rows.antt =====
-- The rows that transcription reads and writes: the queries and the row helpers of
-- app/services/transcription.py.
use limon_backend.Base.{ℕ, String, Bool, Option, some, ◌==◌, option_eq, prefix}
use limon_backend.Models.{Recording, Event, Db, State}
use limon_backend.Models.Table.{find, update_where}
use limon_backend.Runtime.World.{Exec, ◌>>=◌, ◌>>◌, modify, commit_session, utcnow}

-- `session.get(Recording, id)`
abbrev pub has_id : String → Recording → Bool
has_id id r = r.id == id

unfoldable pub find_recording : String → Db → Option Recording
find_recording id d = find (has_id id) d.recordings

-- `select(Event).where(Event.recording_id == id)`
abbrev pub links_to : String → Event → Bool
links_to id x = option_eq x.recording_id (some id)

unfoldable pub find_event_of : String → Db → Option Event
find_event_of id d = find (links_to id) d.events

-- `update(Recording).where(p).values(...)`
unfoldable pub update_recordings : (Recording → Bool) → (Recording → Recording) → Db → Db
update_recordings p f d = record d { recordings = update_where p f d.recordings }

abbrev pub set_state : State → ℕ → Recording → Recording
set_state s now r = record r { state = s; updated_at = now }

abbrev pub set_failed : String → ℕ → Recording → Recording
set_failed reason now r = record r {
  state = State.failed;
  error = some (prefix 2000 reason);
  updated_at = now;
}

-- `_mark_failed`
unfoldable pub mark_failed : String → String → Exec (Unit {0})
mark_failed record_id reason = do
  now ← utcnow
  modify (update_recordings (has_id record_id) (set_failed reason now))
  commit_session

-- `_revert_pending`
unfoldable pub revert_pending : String → Exec (Unit {0})
revert_pending record_id = do
  now ← utcnow
  modify (update_recordings (has_id record_id) (set_state State.pending now))
  commit_session
