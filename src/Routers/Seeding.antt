-- ===== src/Routers/Seeding.antt =====
-- Asking for the demo data, in app/routers/users.py.
use limon_backend.Base.{
  String, true, false, List, [], ◌∷◌, ◌++◌, ◌≡◌, refl, arith, eq_refl, null, is_some, Bool-cases,
  if◌then◌else◌, inl, inr,
}
use limon_backend.Models.{User, Event, Tag, Db}
use limon_backend.Models.Table.{find}
use limon_backend.Runtime.Errors.{err, http_error}
use limon_backend.Runtime.Ends.{Ends}
use limon_backend.Runtime.Triple.{Triple, Triple-bind, Triple-pure}
use limon_backend.Runtime.World.{Env, World, pure, raise, ◌>>=◌}
use limon_backend.Events.{has_events, owned}
use limon_backend.DemoData.Table.{SeedRow}
use limon_backend.DemoData.EarlyRows.{early_events}
use limon_backend.DemoData.Seed.{seed_events}
use limon_backend.DemoData.Rows.{SeededAs}
use limon_backend.DemoData.Seeded.{Seeds, seed_demo_data-Seeds}
use limon_backend.Routers.Users.{create_my_demo_data, seed_if_empty}

found_behind :
    (user : String) (es xs : List Event) (x : Event)
    → x.user_id ≡ user
    → is_some (find (owned user) (es ++ x ∷ xs)) ≡ true
unfolding find
found_behind user [] xs x h = ground (arith, h, eq_refl user)
found_behind user (e ∷ es) xs x h = ground (arith, found_behind user es xs x h)

seeded_found :
    (user : String) (ts : List Tag) (rows : List SeedRow) (es xs : List Event)
    → null rows ≡ false
    → SeededAs user ts rows xs
    → is_some (find (owned user) (es ++ xs)) ≡ true
seeded_found user ts [] es xs n h = absurd (ground (arith, n))
seeded_found user ts (row ∷ rows) es [] n h = absurd h
seeded_found user ts (row ∷ rows) es (x ∷ xs) n h = found_behind user es xs x h.0.owner

some_rows : null seed_events ≡ false
unfolding seed_events early_events
some_rows = refl

-- What the route answers to an account with events.
refused :
    (user : User) (e : Env) (w : World)
    → is_some (find (owned user.id) w.db.events) ≡ true
    → create_my_demo_data user e w ≡ (err (http_error 409), w)
unfolding create_my_demo_data has_events seed_if_empty raise ◌>>=◌
refused user e w h = rw h refl

seeded-Refused :
    (user : User) (before : Db) (u : User) (e' : Env) (w' : World)
    → Seeds user before u w'
    → create_my_demo_data user e' w' ≡ (err (http_error 409), w')
seeded-Refused user before u e' w' s = refused user e' w' (
    rw s.filled.events (
      seeded_found user.id w'.db.tags seed_events before.events s.filled.xs some_rows
        s.filled.seeded))

seeding :
    (user : User) (e' : Env) (w : World)
    → Triple
        (λ v. v ≡ w)
        (seed_if_empty user false)
        (λ _ w'. create_my_demo_data user e' w' ≡ (err (http_error 409), w'))
        (λ _ w'. w'.trace ≡ w.trace)
unfolding seed_if_empty
seeding user e' w =
    Triple-bind (Seeds user w.db) (record { at = λ e v h. rw h (seed_demo_data-Seeds user e w) })
      (λ u. Triple-pure _ (λ w' s. seeded-Refused user w.db u e' w' s))

-- Demo data is for an account without events. Where the session sees an event of the account, the
-- route is refused with 409 and changes nothing. Otherwise it may seed: where it answers, the
-- session sees events of the account, so that the same request made next is refused, and where it
-- raises, nothing was stored or sent.
pub create_my_demo_data_guarded :
    (user : User) (e e' : Env) (w : World)
    → if is_some (find (owned user.id) w.db.events)
      then create_my_demo_data user e w ≡ (err (http_error 409), w)
      else Ends
          (λ _ w'. create_my_demo_data user e' w' ≡ (err (http_error 409), w'))
          (λ _ w'. w'.trace ≡ w.trace)
          (create_my_demo_data user e w)
unfolding create_my_demo_data has_events seed_if_empty raise pure ◌>>=◌
create_my_demo_data_guarded user e e' w =
    elim (Bool-cases (is_some (find (owned user.id) w.db.events))) [
      | inl h ↦ rw h refl
      | inr h ↦ rw h ((seeding user e' w).at e w refl)
    ]
