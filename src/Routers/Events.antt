-- ===== src/Routers/Events.antt =====
-- app/routers/events.py: the routes of a user's events. An event of another user answers 404.
use limon_backend.Base.{ℕ, String, Option, none, some}
use limon_backend.Models.{Event}
use limon_backend.Runtime.Errors.{Error, Result, ok, err, http_error, storage_not_configured}
use limon_backend.Runtime.World.{Exec, pure, raise, lift, try, ◌>>=◌, ◌>>◌}
use limon_backend.Events
use limon_backend.Events.{EventCreate, EventUpdate}

unfoldable pub or_404 : Option Event → Result Event
or_404 none = err (http_error 404)
or_404 (some x) = ok x

-- `_get_event_or_404`
unfoldable pub get_event_or_404 : String → String → Exec Event
unfolding or_404
get_event_or_404 event_id user_id = do
  found ← Events.get_event event_id user_id
  lift (or_404 found)

unfoldable pub storage_to_503 : Error → Exec (Event × Option String)
storage_to_503 storage_not_configured = raise (http_error 503)
storage_to_503 x = raise x

-- The event, its recording's id and the signed URL, with 201.
unfoldable pub create_event : String → EventCreate → Exec (ℕ × Event × Option String)
unfolding storage_to_503
create_event user_id payload = do
  (x, url) ← try (Events.create_event user_id payload) storage_to_503
  pure (201, x, url)

unfoldable pub get_event : String → String → Exec Event
get_event user_id event_id = get_event_or_404 event_id user_id

unfoldable pub update_event : String → String → EventUpdate → Exec Event
update_event user_id event_id payload = do
  x ← get_event_or_404 event_id user_id
  Events.update_event x payload

unfoldable pub delete_event : String → String → Exec ℕ
delete_event user_id event_id = do
  x ← get_event_or_404 event_id user_id
  Events.delete_event x
  pure 204
