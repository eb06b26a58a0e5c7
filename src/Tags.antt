-- ===== src/Tags.antt =====
-- app/services/tags.py: a user's tags.
pub mod Detach
pub mod Upsert
use limon_backend.Base.{
  ℕ, String, Bool, true, false, Option, none, some, List, [], ◌∷◌, ◌++◌, ◌==◌, ◌&&◌, not, any,
  contains, keep, take, drop, length, is_some, if◌then◌else◌,
}
use limon_backend.Models.{Tag, Event, Db}
use limon_backend.Models.Table.{find, update_where, delete_where}
use limon_backend.Runtime.Errors.{Error, Result, ok, err, integrity_error, type_error}
use limon_backend.Runtime.World.{
  Exec, pure, raise, lift, ask, try, ◌>>=◌, ◌>>◌, modify, commit_session, rollback, utcnow,
}

-- A field of a partial update: left out, or given.
pub data Patch (A : Type 0) : Type 0 where
  unset : Patch A
  given : A → Patch A

abbrev pub patched : {A : Type 0} → Patch A → A → A
patched unset a = a
patched (given b) a = b

pub record TagUpdate : Type 0 where
  pub name : Patch (Option String)
  pub color : Patch (Option String)

abbrev pub is_tag : String → Tag → Bool
is_tag id t = t.id == id

abbrev pub is_named : String → String → Tag → Bool
is_named user_id name t = t.user_id == user_id && t.name == name

unfoldable pub get_tag : String → Exec (Option Tag)
get_tag tag_id = ask (λ _ w. find (is_tag tag_id) w.db.tags)

unfoldable pub get_tag_by_name : String → String → Exec (Option Tag)
get_tag_by_name user_id name = ask (λ _ w. find (is_named user_id name) w.db.tags)

abbrev pub add_tag : Tag → Db → Db
add_tag t d = record d { tags = d.tags ++ t ∷ [] }

-- What a lost race leaves: the winner's row, or the error again.
unfoldable pub winner_or_raise : Option Tag → Exec (Tag × Bool)
winner_or_raise none = raise integrity_error
winner_or_raise (some t) = pure (t, false)

unfoldable pub after_insert_error : String → String → Error → Exec (Tag × Bool)
unfolding winner_or_raise
after_insert_error user_id name integrity_error = do
  rollback
  existing ← get_tag_by_name user_id name
  winner_or_raise existing
after_insert_error user_id name x = raise x

unfoldable pub insert_tag : Tag → Exec (Tag × Bool)
unfolding after_insert_error
insert_tag t = do
  modify (add_tag t)
  try (do commit_session; pure (t, true)) (after_insert_error t.user_id t.name)

unfoldable pub upsert_found : String → String → Option String → Option Tag → Exec (Tag × Bool)
upsert_found user_id name color (some t) = pure (t, false)
upsert_found user_id name color none = do
  id ← ask (λ e w. e.new_id w.trace 0)
  insert_tag (record { id = id; user_id = user_id; name = name; color = color })

unfoldable pub upsert_tag_by_name : String → String → Option String → Exec (Tag × Bool)
unfolding upsert_found
upsert_tag_by_name user_id name color = do
  existing ← get_tag_by_name user_id name
  upsert_found user_id name color existing

unfoldable pub insert_by_name : (String → String → Bool) → Tag → List Tag → List Tag
insert_by_name before t [] = t ∷ []
insert_by_name before t (u ∷ us) =
    if before t.name u.name then t ∷ u ∷ us else u ∷ insert_by_name before t us

-- `order_by(Tag.name)`, in the database's order of names
unfoldable pub order_by_name : (String → String → Bool) → List Tag → List Tag
unfolding insert_by_name
order_by_name before [] = []
order_by_name before (t ∷ ts) = insert_by_name before t (order_by_name before ts)

unfoldable pub list_tags : ℕ → ℕ → String → Exec (List Tag × ℕ)
list_tags limit offset user_id = ask (λ e w.
    let owned = keep (λ (t : Tag). t.user_id == user_id) w.db.tags in
    (take limit (drop offset (order_by_name e.collates owned)), length owned))

abbrev pub set_tag : String → Option String → Tag → Tag
set_tag name color t = record t { name = name; color = color }

-- A null name reaches a column that refuses it.
unfoldable pub new_name : Patch (Option String) → String → Result String
new_name unset name = ok name
new_name (given (some name)) _ = ok name
new_name (given none) _ = err integrity_error

unfoldable pub update_tag : Tag → TagUpdate → Exec Tag
unfolding new_name
update_tag t payload = do
  name ← lift (new_name payload.name t.name)
  let updated : Tag = set_tag name (patched payload.color t.color) t
  modify (λ d. record d { tags = update_where (is_tag t.id) (λ _. updated) d.tags })
  commit_session
  pure updated

-- `[tag_id for tag_id in event.tag_ids if tag_id != tag.id]`
abbrev pub without : String → List String → List String
without id ids = keep (λ (x : String). not (x == id)) ids

-- `id in ids`, of the ids that are there
abbrev pub holds : String → Option (List String) → Bool
holds id none = false
holds id (some ids) = contains id ids

abbrev pub without_or_none : String → Option (List String) → Option (List String)
without_or_none id none = none
without_or_none id (some ids) = some (without id ids)

-- `tag.id in event.tag_ids` raises on a null.
abbrev pub is_readable : String → Event → Bool
is_readable user_id x = if x.user_id == user_id then is_some x.tag_ids else true

abbrev pub holds_tag : String → String → Event → Bool
holds_tag user_id id x = x.user_id == user_id && holds id x.tag_ids

abbrev pub detach : String → ℕ → Event → Event
detach id now x = record x { tag_ids = without_or_none id x.tag_ids; updated_at = now }

abbrev pub all_readable : String → List Event → Bool
all_readable user_id xs = not (any (λ (x : Event). not (is_readable user_id x)) xs)

abbrev pub remove_tag : Tag → ℕ → Db → Db
remove_tag t now d = record d {
  events = update_where (holds_tag t.user_id t.id) (detach t.id now) d.events;
  tags = delete_where (is_tag t.id) d.tags;
}

-- The loop raises at a null; what it changed in the session before that is dropped with the request,
-- and is left out.
unfoldable pub delete_tag : Tag → Exec (Unit {0})
delete_tag t = do
  now ← utcnow
  readable ← ask (λ _ w. all_readable t.user_id w.db.events)
  if readable then (do modify (remove_tag t now); commit_session) else raise type_error
