-- ===== src/DemoData/Seed.antt =====
-- `seed_demo_data` of app/services/demo_seed.py.
use limon_backend.Base.{
  ℕ, suc, String, Option, none, some, List, [], ◌∷◌, ◌++◌, ◌==◌, if◌then◌else◌,
}
use limon_backend.Models.{User, Event, Tag, text}
use limon_backend.Models.Table.{update_where}
use limon_backend.Runtime.Errors.{Result, ok, err, key_error}
use limon_backend.Runtime.World.{Exec, pure, lift, ask, ◌>>=◌, ◌>>◌, modify, commit_session, utcnow}
use limon_backend.Tags.{get_tag_by_name, add_tag}
use limon_backend.Events.{add_event}
use limon_backend.Users.{is_user}
use limon_backend.DemoData.Table.{SeedRow, demo_tags}
use limon_backend.DemoData.EarlyRows.{early_events}
use limon_backend.DemoData.LateRows.{late_events}
use limon_backend.DemoData.Clock.{occurred_at}

unfoldable pub seed_events : List SeedRow
unfolding early_events late_events
seed_events = early_events ++ late_events

-- The dict `tags`, the latest assignment first.
abbrev pub TagMap : Type 0
TagMap = List (String × Tag)

-- The tag of a name, and how many ids were drawn: one for a tag that is not there yet.
unfoldable pub tag_or_new : String → String → String → ℕ → Option Tag → Exec (Tag × ℕ)
tag_or_new user_id name color drawn (some t) = pure (t, drawn)
tag_or_new user_id name color drawn none = do
  id ← ask (λ e w. e.new_id w.trace drawn)
  let t : Tag = record { id = id; user_id = user_id; name = name; color = some color }
  modify (add_tag t)
  pure (t, suc drawn)

-- `for name, color in _TAGS.items()`
unfoldable pub seed_tags : String → TagMap → ℕ → List (String × String) → Exec (TagMap × ℕ)
unfolding tag_or_new
seed_tags user_id tags drawn [] = pure (tags, drawn)
seed_tags user_id tags drawn ((name, color) ∷ rest) = do
  found ← get_tag_by_name user_id name
  (t, drawn') ← tag_or_new user_id name color drawn found
  seed_tags user_id ((name, t) ∷ tags) drawn' rest

-- `tags[name].id`
unfoldable pub tag_id_of : TagMap → String → Result String
tag_id_of [] name = err key_error
tag_id_of ((n, t) ∷ tags) name = if n == name then ok t.id else tag_id_of tags name

abbrev cons_id : String → Result (List String) → Result (List String)
cons_id id (ok ids) = ok (id ∷ ids)
cons_id id (err x) = err x

abbrev then_ids : Result String → Result (List String) → Result (List String)
then_ids (ok id) rest = cons_id id rest
then_ids (err x) rest = err x

-- `[tags[name].id for name in tag_names]`
unfoldable pub tag_ids_of : TagMap → List String → Result (List String)
unfolding tag_id_of
tag_ids_of tags [] = ok []
tag_ids_of tags (name ∷ names) = then_ids (tag_id_of tags name) (tag_ids_of tags names)

abbrev pub seed_event : String → SeedRow → ℕ → List String → ℕ → String → Event
seed_event user_id row occurred ids now id = record {
  id = id;
  user_id = user_id;
  type = text;
  title = row.title;
  description = row.description;
  occurred_at = occurred;
  tag_ids = some ids;
  recording_id = none;
  duration_sec = row.duration_sec;
  suggested_location = none;
  tag_reasoning = none;
  client_event_id = none;
  created_at = now;
  updated_at = now;
}

-- `for date, time, title, tag_names, description, duration_sec in _SEED_EVENTS`
unfoldable pub add_seed_events : String → TagMap → ℕ → List SeedRow → Exec (Unit {0})
unfolding tag_ids_of occurred_at
add_seed_events user_id tags drawn [] = pure tt
add_seed_events user_id tags drawn (row ∷ rows) = do
  occurred ← lift (occurred_at row.date row.time)
  ids ← lift (tag_ids_of tags row.tag_names)
  now ← utcnow
  id ← ask (λ e w. e.new_id w.trace drawn)
  modify (add_event (seed_event user_id row occurred ids now id))
  add_seed_events user_id tags (suc drawn) rows

-- The row of the user is written with the time of the seeding, in the one commit.
unfoldable pub seed_demo_data : User → Exec User
unfolding seed_tags add_seed_events demo_tags seed_events
seed_demo_data user = do
  (tags, drawn) ← seed_tags user.id [] 0 demo_tags
  add_seed_events user.id tags drawn seed_events
  now ← utcnow
  let seeded : User = record user { demo_seeded_at = some now; updated_at = now }
  modify (λ d. record d { users = update_where (is_user user.id) (λ _. seeded) d.users })
  commit_session
  pure seeded
