-- ===== src/Routers/Isolation.antt =====
-- What the routes of tags and events answer for the rows of another user.
use limon_backend.Base.{String, false, none, some, List, [], ◌∷◌, ◌≡◌, refl, arith, ◌==◌, any}
use limon_backend.Models.{Tag, Event}
use limon_backend.Models.Table.{find}
use limon_backend.Runtime.Errors.{Result, err, http_error}
use limon_backend.Runtime.World.{Env, World, ◌>>=◌}
use limon_backend.Tags.{TagUpdate, is_tag, get_tag}
use limon_backend.Events
use limon_backend.Events.{EventUpdate, is_owned_event, owned, same_id}
use limon_backend.Routers.Tags.{own_or_404, get_own_tag_or_404, update_tag, delete_tag}
use limon_backend.Routers.Events.{or_404, get_event_or_404, get_event, update_event, delete_event}

-- The answer for a row that is not the caller's: 404, with the session and the trace as they were.
abbrev pub Denied {ℓ} : {A : Type ℓ} → World → Result A × World → Type ℓ
Denied w r = r ≡ (err (http_error 404), w)

foreign_tag-Denied :
    (user id : String) (payload : TagUpdate) (e : Env) (w : World) (t : Tag)
    → find (is_tag id) w.db.tags ≡ some t
    → (t.user_id == user) ≡ false
    → Denied w (update_tag user id payload e w) × Denied w (delete_tag user id e w)
unfolding update_tag delete_tag get_own_tag_or_404 own_or_404 get_tag ◌>>=◌
foreign_tag-Denied user id payload e w t found foreign = ground (arith, found, foreign)

not_owned :
    (user id : String) (xs : List Event)
    → any (λ x. is_owned_event id user x) xs ≡ false
    → find (is_owned_event id user) xs ≡ none
unfolding find
not_owned user id [] h = refl
not_owned user id (x ∷ xs) h = ground (arith, not_owned user id xs)

foreign_event-Denied :
    (user id : String) (payload : EventUpdate) (e : Env) (w : World)
    → any (is_owned_event id user) w.db.events ≡ false
    → Denied w (get_event user id e w)
      × Denied w (update_event user id payload e w)
      × Denied w (delete_event user id e w)
unfolding get_event update_event delete_event get_event_or_404 or_404 Events.get_event ◌>>=◌
foreign_event-Denied user id payload e w none_owned =
    ground (arith, not_owned user id w.db.events none_owned)

-- What belongs to another user is answered like what is not there. Where a tag is found by its id and
-- is not the caller's, and no event of the caller has an id, the routes that change and delete that
-- tag, and those that read, change and delete the event of that id, all answer 404, whoever else has
-- an event of that id, and neither the session nor the trace changes.
pub foreign-Denied :
    (user tag_id event_id : String) (renaming : TagUpdate) (payload : EventUpdate) (e : Env)
    (w : World) (t : Tag)
    → find (is_tag tag_id) w.db.tags ≡ some t
    → (t.user_id == user) ≡ false
    → any (is_owned_event event_id user) w.db.events ≡ false
    → Denied w (update_tag user tag_id renaming e w)
      × Denied w (delete_tag user tag_id e w)
      × Denied w (get_event user event_id e w)
      × Denied w (update_event user event_id payload e w)
      × Denied w (delete_event user event_id e w)
foreign-Denied user tag_id event_id renaming payload e w t found foreign none_owned =
    let (renames, deletes) = foreign_tag-Denied user tag_id renaming e w t found foreign in
    let (reads, changes, removes) = foreign_event-Denied user event_id payload e w none_owned in
    (renames, deletes, reads, changes, removes)
