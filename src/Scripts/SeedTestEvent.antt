-- ===== src/Scripts/SeedTestEvent.antt =====
-- scripts/seed_test_event.py: one user, five tags and two text events with no tags.
pub mod Taggable
use limon_backend.Base.{ℕ, suc, String, Option, none, some, List, [], ◌∷◌, ◌++◌}
use limon_backend.Models.{User, Event, Tag, Db, EventType, text}
use limon_backend.Runtime.World.{
  Env, World, Exec, pure, ask, ◌>>=◌, ◌>>◌, modify, commit_session, utcnow,
}
use limon_backend.Events.{add_event}
use limon_backend.Tags.{add_tag}

-- `_TAG_NAMES`
abbrev pub tag_names : List String
tag_names =
    "\u{5e2}\u{5d1}\u{5d5}\u{5d3}\u{5d4}" ∷ "\u{5de}\u{5e9}\u{5e4}\u{5d7}\u{5d4}"
    ∷ "\u{5e1}\u{5e4}\u{5d5}\u{5e8}\u{5d8}"
    ∷ "\u{5d1}\u{5e8}\u{5d9}\u{5d0}\u{5d5}\u{5ea} \u{5e0}\u{5e4}\u{5e9}\u{5d9}\u{5ea}"
    ∷ "\u{5d1}\u{5d9}\u{5e9}\u{5d5}\u{5dc}" ∷ []

-- `_EVENT_A_TEXT`
abbrev pub event_a_text : String
event_a_text =
    "\u{5d4}\u{5d9}\u{5d5}\u{5dd} \u{5d4}\u{5ea}\u{5e2}\u{5d5}\u{5e8}\u{5e8}\u{5ea}\u{5d9} \u{5de}\u{5d5}\u{5e7}\u{5d3}\u{5dd} \u{5d5}\u{5d4}\u{5dc}\u{5db}\u{5ea}\u{5d9} \u{5dc}\u{5e8}\u{5d5}\u{5e5} \u{5d1}\u{5e4}\u{5d0}\u{5e8}\u{5e7} \u{5d4}\u{5d9}\u{5e8}\u{5e7}\u{5d5}\u{5df} \u{5d1}\u{5ea}\u{5dc} \u{5d0}\u{5d1}\u{5d9}\u{5d1}. \u{5d0}\u{5d7}\u{5e8} \u{5db}\u{5da} \u{5e4}\u{5d2}\u{5e9}\u{5ea}\u{5d9} \u{5d0}\u{5ea} \u{5d0}\u{5de}\u{5d0} \u{5e9}\u{5dc}\u{5d9} \u{5dc}\u{5d0}\u{5e8}\u{5d5}\u{5d7}\u{5ea} \u{5d1}\u{5d5}\u{5e7}\u{5e8}, \u{5d5}\u{5d3}\u{5d9}\u{5d1}\u{5e8}\u{5e0}\u{5d5} \u{5d4}\u{5e8}\u{5d1}\u{5d4} \u{5e2}\u{5dc} \u{5d4}\u{5e2}\u{5d1}\u{5d5}\u{5d3}\u{5d4} \u{5d4}\u{5d7}\u{5d3}\u{5e9}\u{5d4} \u{5e9}\u{5dc}\u{5d9}. \u{5d4}\u{5e8}\u{5d2}\u{5e9}\u{5ea}\u{5d9} \u{5d3}\u{5d9} \u{5dc}\u{5d7}\u{5d5}\u{5e5} \u{5dc}\u{5e7}\u{5e8}\u{5d0}\u{5ea} \u{5d4}\u{5e4}\u{5d2}\u{5d9}\u{5e9}\u{5d4} \u{5e9}\u{5dc} \u{5d0}\u{5d7}\u{5e8} \u{5d4}\u{5e6}\u{5d4}\u{5e8}\u{5d9}\u{5d9}\u{5dd}, \u{5d0}\u{5d1}\u{5dc} \u{5d1}\u{5e1}\u{5d5}\u{5e4}\u{5d5} \u{5e9}\u{5dc} \u{5d3}\u{5d1}\u{5e8} \u{5d4}\u{5d9}\u{5d0} \u{5d4}\u{5dc}\u{5db}\u{5d4} \u{5d8}\u{5d5}\u{5d1} \u{5d5}\u{5d9}\u{5e6}\u{5d0}\u{5ea}\u{5d9} \u{5de}\u{5de}\u{5e0}\u{5d4} \u{5d1}\u{5de}\u{5e6}\u{5d1} \u{5e8}\u{5d5}\u{5d7} \u{5d4}\u{5e8}\u{5d1}\u{5d4} \u{5d9}\u{5d5}\u{5ea}\u{5e8} \u{5d8}\u{5d5}\u{5d1}."

-- `_EVENT_B_TEXT`
abbrev pub event_b_text : String
event_b_text =
    "\u{5d9}\u{5d5}\u{5dd} \u{5e8}\u{5d2}\u{5d9}\u{5dc}, \u{5db}\u{5dc}\u{5d5}\u{5dd} \u{5de}\u{5d9}\u{5d5}\u{5d7}\u{5d3}."

abbrev pub manual_user : ℕ → String → User
manual_user now id = record {
  id = id;
  provider = "manual-test";
  email = none;
  display_name = none;
  demo_seeded_at = none;
  created_at = now;
  updated_at = now;
}

abbrev pub manual_event : String → String → ℕ → String → Event
manual_event user_id description now id = record {
  id = id;
  user_id = user_id;
  type = text;
  title = none;
  description = some description;
  occurred_at = now;
  tag_ids = some [];
  recording_id = none;
  duration_sec = none;
  suggested_location = none;
  tag_reasoning = none;
  client_event_id = none;
  created_at = now;
  updated_at = now;
}

-- `[Tag(user_id=user.id, name=name) for name in _TAG_NAMES]`, by the uuids that are drawn
unfoldable pub add_tags : String → ℕ → List String → Exec (Unit {0})
add_tags user_id drawn [] = pure tt
add_tags user_id drawn (name ∷ names) = do
  id ← ask (λ e w. e.new_id w.trace drawn)
  modify (add_tag (record { id = id; user_id = user_id; name = name; color = none }))
  add_tags user_id (suc drawn) names

-- `main`: the ids of the two events.
unfoldable pub seed_test_event : Exec (String × String)
unfolding add_tags
seed_test_event = do
  user_id ← ask (λ e w. e.new_id w.trace 0)
  created ← utcnow
  modify (λ d. record d { users = d.users ++ manual_user created user_id ∷ [] })
  add_tags user_id 1 tag_names
  now ← utcnow
  event_a ← ask (λ e w. e.new_id w.trace 6)
  event_b ← ask (λ e w. e.new_id w.trace 7)
  modify (add_event (manual_event user_id event_a_text now event_a))
  modify (add_event (manual_event user_id event_b_text now event_b))
  commit_session
  pure (event_a, event_b)
