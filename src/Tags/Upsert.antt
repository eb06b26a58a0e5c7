-- ===== src/Tags/Upsert.antt =====
-- Creating a tag by its name.
use limon_backend.Base.{
  String, Bool, true, false, Option, none, some, List, [], ◌∷◌, ◌++◌, ◌≡◌, arith, eq_refl,
  if◌then◌else◌, is_some,
}
use limon_backend.Models.{Tag}
use limon_backend.Models.Table.{find}
use limon_backend.Runtime.Ends.{Ends}
use limon_backend.Runtime.World.{Env, World, try, ◌>>=◌, durable, modify, commit_session, rollback}
use limon_backend.Tags.{
  is_named, upsert_tag_by_name, upsert_found, insert_tag, after_insert_error, winner_or_raise,
  get_tag_by_name,
}

pub find-added :
    (p : Tag → Bool) (xs : List Tag) (t : Tag)
    → find p xs ≡ none
    → p t ≡ true
    → find p (xs ++ t ∷ []) ≡ some t
unfolding find
find-added p [] t n h = ground arith
find-added p (x ∷ xs) t n h = ground (arith, find-added p xs t)

-- Creating a tag by its name. Where the user has a tag of that name, the call returns that tag, says
-- that it created none, and changes nothing, whatever the database does. Where there is none, the
-- call raises, or the session finds the tag that it returned by its owner and name, and what the
-- session sees is stored.
pub upsert_tag_by_name_lem :
    (user name : String) (color : Option String) (e : Env) (w : World)
    → let before = find (is_named user name) w.db.tags in
      Ends
        (λ answer w'.
          (find (is_named user name) w'.db.tags ≡ some answer.0)
          × (if is_some before then (answer.1 ≡ false) × (w' ≡ w) else (durable w'.trace ≡ w'.db)))
        (λ _ w'. is_some before ≡ false)
        (upsert_tag_by_name user name color e w)
unfolding upsert_tag_by_name upsert_found insert_tag after_insert_error winner_or_raise
    get_tag_by_name modify commit_session rollback durable try ◌>>=◌
upsert_tag_by_name_lem user name color e w =
    let t : Tag = record { id = e.new_id w.trace 0; user_id = user; name = name; color = color } in
    ground (arith, find-added (is_named user name) w.db.tags t, eq_refl user, eq_refl name)
