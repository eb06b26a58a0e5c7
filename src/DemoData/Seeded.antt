-- ===== src/DemoData/Seeded.antt =====
-- `seed_demo_data` of app/services/demo_seed.py as a whole: what it leaves, and how it ends.
use limon_backend.Base.{
  ℕ, String, true, some, List, [], ◌++◌, ◌≡◌, refl, sym, ap, arith, contains, map,
}
use mathlib.Core.List.{append-nil}
use limon_backend.Models.{User, Event, Tag, Db}
use limon_backend.Models.Table.{update_where}
use limon_backend.Runtime.Ends.{Ends}
use limon_backend.Runtime.World.{
  Env, World, Trace, durable, pure, modify, commit_session, utcnow, ◌>>=◌, ◌>>◌,
}
use limon_backend.Runtime.Triple.{
  Triple, Triple-bind, Triple-pure, Triple-ask, Triple-after, Triple-given,
}
use limon_backend.Users.{is_user}
use limon_backend.DemoData.Table.{demo_tags}
use limon_backend.DemoData.Seed.{TagMap, seed_events, add_seed_events, seed_demo_data}
use limon_backend.DemoData.Tagged.{Prepared, Covers, seed_tags-Prepared, name_of}
use limon_backend.DemoData.Rows.{SeededAs, seed_events-is_readable, add_seed_events_lem}

-- The session's rows with the demo data: these users, the recordings as they were, new tags and new
-- events behind the old ones, and each new event as its row of the table says.
pub record IsFilled (user_id : String) (users : List User) (before after : Db) : Type 0 where
  pub same_users : after.users ≡ users
  pub same_recordings : after.recordings ≡ before.recordings
  pub more : List Tag
  pub tags : after.tags ≡ before.tags ++ more
  pub xs : List Event
  pub events : after.events ≡ before.events ++ xs
  pub seeded : SeededAs user_id after.tags seed_events xs

abbrev stamped : User → ℕ → User
stamped user now = record user { demo_seeded_at = some now; updated_at = now }

abbrev pub stamped_users : User → ℕ → List User → List User
stamped_users user now us = update_where (is_user user.id) (λ _. stamped user now) us

-- The rows that a seeding leaves, stored.
pub record Seeds (user : User) (before : Db) (u : User) (w : World) : Type 0 where
  pub stored : durable w.trace ≡ w.db
  pub now : ℕ
  pub answered : u ≡ stamped user now
  pub filled : IsFilled user.id (stamped_users user now before.users) before w.db

module _ (user : User) (before : Db) (start : Trace) where
  record Unsaved (us : List User) (w : World) : Type 0 where
    same_trace : w.trace ≡ start
    filled : IsFilled user.id us before w.db

  stamp-Unsaved :
      (now : ℕ)
      → Triple
          (Unsaved before.users)
          (modify (λ d. record d { users = stamped_users user now d.users }))
          (λ _. Unsaved (stamped_users user now before.users))
          (λ _ _. ⊥)
  unfolding modify
  stamp-Unsaved now = record {
    at = λ e w h. record {
      same_trace = h.same_trace;
      filled = record {
        same_users = ap (stamped_users user now) h.filled.same_users;
        same_recordings = h.filled.same_recordings;
        more = h.filled.more;
        tags = h.filled.tags;
        xs = h.filled.xs;
        events = h.filled.events;
        seeded = h.filled.seeded;
      };
    };
  }

  commit-Filled :
      (us : List User)
      → Triple
          (Unsaved us)
          commit_session
          (λ _ w. (durable w.trace ≡ w.db) × IsFilled user.id us before w.db)
          (λ _ w. w.trace ≡ start)
  unfolding commit_session durable
  commit-Filled us = record { at = λ e w h. ground (arith, h.same_trace, h.filled) }

  finish-Seeds :
      Triple
        (Unsaved before.users)
        (do
          now ← utcnow
          modify (λ d. record d { users = stamped_users user now d.users })
          commit_session
          pure (stamped user now))
        (Seeds user before)
        (λ _ w. w.trace ≡ start)
  finish-Seeds =
      Triple-bind (λ _. Unsaved before.users) (Triple-ask _ (λ e w h. h))
        λ now.
          Triple-bind (λ _. Unsaved (stamped_users user now before.users))
            (Triple-after _ _ (stamp-Unsaved now) (λ _ w h. h) (λ _ w h. absurd h))
            λ _.
              Triple-bind (λ _ w. (durable w.trace ≡ w.db) × IsFilled user.id _ before w.db)
                (commit-Filled _)
                λ _.
                  Triple-pure _
                    (λ w h. record { stored = h.0; now = now; answered = refl; filled = h.1 })

  fill-Unsaved :
      (tags : TagMap) (drawn : ℕ)
      → ((n : String)
          → contains n (map name_of demo_tags) ≡ true
          → contains n (map name_of tags) ≡ true)
      → Triple
          (Prepared user.id before start tags)
          (add_seed_events user.id tags drawn seed_events)
          (λ _. Unsaved before.users)
          (λ _ w. w.trace ≡ start)
  fill-Unsaved tags drawn covers = record {
    at = λ e w h.
        let (xs, runs, seeded) =
          add_seed_events_lem user.id tags (map name_of demo_tags) e covers seed_events drawn w
            h.known seed_events-is_readable in
        rw runs (record {
          same_trace = h.same_trace;
          filled = record {
            same_users = rw h.grown refl;
            same_recordings = rw h.grown refl;
            more = h.more;
            tags = rw h.grown refl;
            xs = xs;
            events = ap (λ (d : Db). d.events ++ xs) h.grown;
            seeded = seeded;
          };
        });
  }

  Prepared-at_start : Prepared user.id before start [] (record { db = before; trace = start })
  Prepared-at_start = record {
    same_trace = refl;
    more = [];
    grown = ap (λ ts. record before { tags = ts }) (sym (append-nil before.tags));
    known = tt;
  }

-- Seeding never misses a tag of its table nor misreads a time of it. Where it returns, the 46 rows
-- of the table are events of the user, behind the events that were there and stored in one commit
-- with the stamp of the user's row; each carries the ids of the user's tags of its row's names,
-- where a tag that was there stays as it was. Where it raises, nothing is stored.
pub seed_demo_data-Seeds :
    (user : User) (e : Env) (w : World)
    → Ends (Seeds user w.db) (λ _ w'. w'.trace ≡ w.trace) (seed_demo_data user e w)
unfolding seed_demo_data
seed_demo_data-Seeds user e w =
    (seeding user w.db w.trace).at e w (Prepared-at_start user w.db w.trace)
  where
    seeding :
        (user : User) (before : Db) (start : Trace)
        → Triple
            (Prepared user.id before start [])
            (seed_demo_data user)
            (Seeds user before)
            (λ _ w. w.trace ≡ start)
    seeding user before start =
        Triple-bind (λ p w. Prepared user.id before start p.0 w × Covers [] demo_tags p.0)
          (Triple-after _ _ (seed_tags-Prepared user.id before start [] 0 demo_tags) (λ p w h. h)
            (λ _ w h. absurd h))
          λ p. Triple-given _ λ covers.
            Triple-bind (λ _. Unsaved user before start before.users)
              (fill-Unsaved user before start p.0 p.1 (λ n h. covers n h))
              λ _. finish-Seeds user before start
