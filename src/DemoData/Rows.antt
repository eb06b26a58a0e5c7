-- ===== src/DemoData/Rows.antt =====
-- The events of the demo data of app/services/demo_seed.py, against the rows of its table.
use limon_backend.Base.{
  ℕ, suc, String, Bool, true, false, none, some, List, [], ◌∷◌, ◌++◌, ◌≡◌, refl, sym, ap, ◌∙◌,
  arith, ◌&&◌, All, all, contains, join, map,
}
use mathlib.Core.List.{append_assoc, append-nil}
use limon_backend.Models.{Event, Tag, text}
use limon_backend.Runtime.Errors.{Result, ok, err}
use limon_backend.Runtime.World.{Env, World, pure, lift, ask, modify, ◌>>=◌}
use limon_backend.Events.{add_event}
use limon_backend.DemoData.Table.{SeedRow, demo_tags}
use limon_backend.DemoData.EarlyRows.{early_events}
use limon_backend.DemoData.LateRows.{late_events}
use limon_backend.DemoData.Clock.{occurred_at, codes, moment_of, days_before, days_in, ordinal}
use limon_backend.DemoData.Seed.{TagMap, seed_events, seed_event, add_seed_events}
use limon_backend.DemoData.Tagged.{IsKnown, NamedBy, tag_ids_of-known, name_of}

-- An event that a row of the table stands for.
pub record Matches (user : String) (ts : List Tag) (row : SeedRow) (x : Event) : Type 0 where
  pub owner : x.user_id ≡ user
  pub written : x.type ≡ text
  pub title : x.title ≡ row.title
  pub description : x.description ≡ row.description
  pub duration : x.duration_sec ≡ row.duration_sec
  pub silent : x.recording_id ≡ none
  pub time : occurred_at row.date row.time ≡ ok x.occurred_at
  pub ids : List String
  pub tagged : x.tag_ids ≡ some ids
  pub named : NamedBy user ts row.tag_names ids

-- Row by row.
abbrev pub SeededAs : String → List Tag → List SeedRow → List Event → Type 0
SeededAs user ts [] [] = Unit
SeededAs user ts (row ∷ rows) (x ∷ xs) = Matches user ts row x × SeededAs user ts rows xs
SeededAs user ts _ _ = ⊥

abbrev is_ok : Result ℕ → Bool
is_ok (ok _) = true
is_ok (err _) = false

-- A row whose time is read and whose names are among these.
unfoldable pub is_readable : List String → SeedRow → Bool
is_readable names row =
    is_ok (occurred_at row.date row.time) && all (λ name. contains name names) row.tag_names

-- Every row of the table is readable with the names of the table of tags.
pub seed_events-is_readable : all (is_readable (map name_of demo_tags)) seed_events ≡ true
unfolding is_readable seed_events early_events late_events demo_tags occurred_at ordinal moment_of
    codes days_before days_in join
seed_events-is_readable = refl

covered_names :
    (names known : List String) (wanted : List String)
    → ((n : String) → contains n names ≡ true → contains n known ≡ true)
    → all (λ name. contains name names) wanted ≡ true
    → All (λ name. contains name known ≡ true) wanted
covered_names names known [] c h = tt
covered_names names known (n ∷ ns) c h =
    (c n (ground (arith, h)), covered_names names known ns c (ground (arith, h)))

readable_time : (r : Result ℕ) → is_ok r ≡ true → (t : ℕ) × (r ≡ ok t)
readable_time (ok t) h = (t, refl)
readable_time (err x) h = absurd (ground (arith, h))

-- The session with events added.
abbrev pub with_events : List Event → World → World
with_events xs w = record w { db = record w.db { events = w.db.events ++ xs } }

module _ (user : String) (tags : TagMap) (names : List String) (e : Env)
    (covers : (n : String) → contains n names ≡ true → contains n (map name_of tags) ≡ true) where
  pub add_seed_events_lem :
      (rows : List SeedRow) (drawn : ℕ) (w : World)
      → All (IsKnown user w.db.tags) tags
      → all (is_readable names) rows ≡ true
      → (xs : List Event) × (add_seed_events user tags drawn rows e w ≡ (ok tt, with_events xs w))
        × SeededAs user w.db.tags rows xs
  unfolding add_seed_events pure lift ask modify ◌>>=◌
  add_seed_events_lem [] drawn w known h = (
    [],
    ap (λ es. (ok tt, record w { db = record w.db { events = es } }))
        (sym (append-nil w.db.events)),
    tt,
  )
  add_seed_events_lem (row ∷ rows) drawn w known h =
      let (readable, rest) : (is_readable names row ≡ true)
          × (all (is_readable names) rows ≡ true) =
        ground (arith, h) in
      let (t, timed) =
        readable_time (occurred_at row.date row.time)
          (unfold is_readable in ground (arith, readable)) in
      let (ids, found, named) = tag_ids_of-known user w.db.tags tags row.tag_names known (
        covered_names names (map name_of tags) row.tag_names covers
          (unfold is_readable in ground (arith, readable))) in
      let x = seed_event user row t ids (e.now w.trace) (e.new_id w.trace drawn) in
      let (xs, runs, seeded) =
        add_seed_events_lem rows (suc drawn) (record w { db = add_event x w.db }) known rest in
      (
        x ∷ xs,
        rw timed (
            rw found (
              runs
              ∙ ap (λ es. (ok tt, record w { db = record w.db { events = es } }))
                  (append_assoc w.db.events (x ∷ []) xs))),
        (
          record {
            owner = refl;
            written = refl;
            title = refl;
            description = refl;
            duration = refl;
            silent = refl;
            time = timed;
            ids = ids;
            tagged = refl;
            named = named;
          },
          seeded,
        ),
      )
