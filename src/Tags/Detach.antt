-- ===== src/Tags/Detach.antt =====
-- Deleting a tag takes it out of its owner's events, and touches nothing else.
use limon_backend.Base.{
  String, true, false, Option, none, some, List, [], ◌∷◌, ◌≡◌, refl, arith, eq_iff, any, contains,
  if◌then◌else◌, ℕ,
}
use limon_backend.Models.{Tag, Event}
use limon_backend.Models.Table.{find, update_where, find-delete_where}
use limon_backend.Runtime.Errors.{ok, err, type_error}
use limon_backend.Runtime.World.{Env, World, ◌>>=◌, durable, modify, commit_session}
use limon_backend.Transcription.Stores.{takes}
use limon_backend.Tags.{
  delete_tag, remove_tag, detach, holds, holds_tag, without, without_or_none, all_readable, is_tag,
}

contains-without : (id : String) (ids : List String) → contains id (without id ids) ≡ false
contains-without id [] = refl
contains-without id (x ∷ ids) = ground (arith, contains-without id ids, eq_iff x id)

holds-without_or_none :
    (id : String) (o : Option (List String)) → holds id (without_or_none id o) ≡ false
holds-without_or_none id none = refl
holds-without_or_none id (some ids) = contains-without id ids

detached :
    (user id : String) (now : ℕ) (xs : List Event)
    → any (holds_tag user id) (update_where (holds_tag user id) (detach id now) xs) ≡ false
unfolding update_where
detached user id now [] = refl
detached user id now (x ∷ xs) =
    ground (arith, detached user id now xs, holds-without_or_none id x.tag_ids)

-- Deleting a tag, where the database takes the commit: with no null among the owner's events, the
-- stored rows are those of the session with the tag's row gone and its id out of every event of its
-- owner, and no event of the owner holds the id any more; with a null among them the call raises,
-- and the world is as it was.
pub delete_tag_lem :
    (t : Tag) (e : Env) (w : World)
    → takes e w.trace (remove_tag t (e.now w.trace) w.db) ≡ true
    → if all_readable t.user_id w.db.events
      then ((delete_tag t e w).0 ≡ ok tt)
        × (durable (delete_tag t e w).1.trace ≡ remove_tag t (e.now w.trace) w.db)
        × (any (holds_tag t.user_id t.id) (durable (delete_tag t e w).1.trace).events ≡ false)
        × (find (is_tag t.id) (durable (delete_tag t e w).1.trace).tags ≡ none)
      else delete_tag t e w ≡ (err type_error, w)
unfolding delete_tag modify commit_session durable ◌>>=◌
delete_tag_lem t e w h = ground (
  arith,
  detached t.user_id t.id (e.now w.trace) w.db.events,
  find-delete_where (is_tag t.id) (is_tag t.id) w.db.tags (λ x p. p),
)
