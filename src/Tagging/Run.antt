-- ===== src/Tagging/Run.antt =====
-- `run_tagging` of app/services/tagging.py: ask for tags, check them, write them.
pub mod Listed
pub mod Written
use limon_backend.Base.{
  ℕ, String, Bool, true, false, Option, none, some, List, [], ◌∷◌, ◌==◌, ◌||◌, not, any, contains,
  dedupe, map, empty_or_none, null, truthy, text_or, join, is_blank, if◌then◌else◌,
}
use limon_backend.Models.{Event, Tag, Db}
use limon_backend.Models.Table.{find, update_where}
use limon_backend.Runtime.Errors.{
  Error, PyFloat, tagger_not_configured, tagger_unavailable, tagger_response, tagger_busy,
  rate_limited,
}
use limon_backend.Runtime.World.{
  Exec, pure, raise, ask, try, ◌>>=◌, ◌>>◌, modify, commit_session, rollback, utcnow,
}
use limon_backend.Tags.{list_tags}
use limon_backend.Tagger.{suggest_tags, invented}
use limon_backend.Tagger.Prompt.{tag_id}

pub data Status : Type 0 where
  noop done failed retry : Status

pub record Outcome : Type 0 where
  pub status : Status
  pub retry_after : Option PyFloat

abbrev pub outcome : Status → Outcome
outcome s = record { status = s; retry_after = none }

abbrev pub is_event : String → Event → Bool
is_event id x = x.id == id

-- `"\n".join(part for part in (title, description) if part)`
abbrev pub text_of : Option String → Option String → String
text_of title description =
    if truthy title
    then if truthy description
      then join (text_or title "") (join "\n" (text_or description ""))
      else text_or title ""
    else text_or description ""

abbrev pub offered : Tag → String × String
offered t = (t.id, t.name)

abbrev pub set_tags : List String → ℕ → Event → Event
set_tags ids now x = record x { tag_ids = some ids; updated_at = now }

-- The model's answer, or the outcome that its failure stands for.
pub data Suggestion : Type 0 where
  chosen : List String → Suggestion
  stopped : Outcome → Suggestion

unfoldable pub after_tagger_error : Error → Exec Suggestion
after_tagger_error (tagger_busy after) =
    pure (stopped (record { status = retry; retry_after = after }))
after_tagger_error (rate_limited after) =
    pure (stopped (record { status = retry; retry_after = after }))
after_tagger_error tagger_unavailable = pure (stopped (outcome retry))
after_tagger_error tagger_not_configured = pure (stopped (outcome retry))
after_tagger_error tagger_response = pure (stopped (outcome failed))
after_tagger_error x = raise x

unfoldable pub suggest : String → List (String × String) → Exec Suggestion
unfolding after_tagger_error
suggest text existing =
    try (do ids ← suggest_tags text existing; pure (chosen ids)) after_tagger_error

-- The second check of the ids, and the write.
unfoldable pub write_tags : Event → List String → Suggestion → Exec Outcome
write_tags event allowed (stopped o) = pure o
write_tags event allowed (chosen ids) = if invented allowed ids then pure (outcome failed) else do
  now ← utcnow
  modify (λ d. record d {
    events = update_where (is_event event.id) (set_tags (dedupe ids) now) d.events;
  })
  commit_session
  pure (outcome done)

unfoldable pub tag_found : Option Event → Exec Outcome
unfolding suggest write_tags
tag_found none = pure (outcome noop)
tag_found (some event) =
    if not (empty_or_none event.tag_ids)
    then pure (outcome noop)
    else if is_blank (text_of event.title event.description)
    then pure (outcome noop)
    else do
      (tags, _) ← list_tags 10000 0 event.user_id
      let existing = map offered tags
      suggestion ← suggest (text_of event.title event.description) existing
      write_tags event (map tag_id existing) suggestion

unfoldable pub run_tagging : String → Exec Outcome
unfolding tag_found
run_tagging event_id = do event ← ask (λ _ w. find (is_event event_id) w.db.events); tag_found event

-- `_run_local_tagging`: in a session of its own, which sees the stored rows; nothing is raised.
unfoldable pub run_local_tagging : String → Exec (Unit {0})
run_local_tagging event_id = try (do rollback; run_tagging event_id; pure tt) (λ x. pure tt)
