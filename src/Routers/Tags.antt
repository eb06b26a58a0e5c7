-- ===== src/Routers/Tags.antt =====
-- app/routers/tags.py: the routes of a user's tags. A tag of another user answers 404.
use limon_backend.Base.{ℕ, String, Option, none, some, ◌==◌, if◌then◌else◌}
use limon_backend.Models.{Tag}
use limon_backend.Runtime.Errors.{Result, ok, err, http_error}
use limon_backend.Runtime.World.{Exec, pure, lift, ◌>>=◌, ◌>>◌}
use limon_backend.Tags
use limon_backend.Tags.{TagUpdate, Patch, unset, given}

unfoldable pub own_or_404 : String → Option Tag → Result Tag
own_or_404 user_id none = err (http_error 404)
own_or_404 user_id (some t) = if t.user_id == user_id then ok t else err (http_error 404)

-- `_get_own_tag_or_404`
unfoldable pub get_own_tag_or_404 : String → String → Exec Tag
unfolding own_or_404
get_own_tag_or_404 user_id tag_id = do found ← Tags.get_tag tag_id; lift (own_or_404 user_id found)

unfoldable pub free_or_409 : Option Tag → Result (Unit {0})
free_or_409 none = ok tt
free_or_409 (some _) = err (http_error 409)

-- `_ensure_name_free`
unfoldable pub ensure_name_free : String → String → Exec (Unit {0})
unfolding free_or_409
ensure_name_free user_id name = do
  existing ← Tags.get_tag_by_name user_id name
  lift (free_or_409 existing)

-- 201 for a tag that was created, 200 for the one that was there.
unfoldable pub create_tag : String → String → Option String → Exec (ℕ × Tag)
create_tag user_id name color = do
  (t, created) ← Tags.upsert_tag_by_name user_id name color
  pure (if created then 201 else 200, t)

-- `payload.name is not None and payload.name != tag.name` asks for a free name.
unfoldable pub check_rename : Tag → Patch (Option String) → Exec (Unit {0})
check_rename t unset = pure tt
check_rename t (given none) = pure tt
check_rename t (given (some name)) =
    if name == t.name then pure tt else ensure_name_free t.user_id name

unfoldable pub update_tag : String → String → TagUpdate → Exec Tag
unfolding check_rename
update_tag user_id tag_id payload = do
  t ← get_own_tag_or_404 user_id tag_id
  check_rename t payload.name
  Tags.update_tag t payload

unfoldable pub delete_tag : String → String → Exec ℕ
delete_tag user_id tag_id = do t ← get_own_tag_or_404 user_id tag_id; Tags.delete_tag t; pure 204
