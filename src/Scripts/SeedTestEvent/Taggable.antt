-- ===== src/Scripts/SeedTestEvent/Taggable.antt =====
-- The events of scripts/seed_test_event.py, as `run_tagging` of app/services/tagging.py finds them.
use limon_backend.Base.{
  ℕ, String, true, false, none, some, List, [], ◌∷◌, ◌++◌, ◌≡◌, ◌≢◌, refl, arith, ◌==◌,
  empty_or_none, is_blank, eq_refl, map, not,
}
use mathlib.Core.List.{append_assoc}
use limon_backend.Models.{Event}
use limon_backend.Models.Table.{find}
use limon_backend.Runtime.Errors.{
  Error, tagger_not_configured, tagger_unavailable, tagger_response, tagger_busy, rate_limited,
}
use limon_backend.Runtime.Ends.{
  Ends, Ends-bind, Ends-if, Ends-ask, Ends-pure, Ends-any, Ends-weaken,
}
use limon_backend.Runtime.Triple.{Triple, Triple-pure, Triple-raise, Triple-bind, Triple-try}
use limon_backend.Runtime.World.{
  Env, World, Exec, durable, modify, commit_session, ask, pure, ◌>>=◌,
}
use limon_backend.Tagger.{invented}
use limon_backend.Tagging.Run.{
  noop, done, failed, retry, Outcome, Suggestion, chosen, stopped, text_of, is_event, offered,
  after_tagger_error, suggest, write_tags, tag_found, run_tagging,
}
use limon_backend.Tagger.Prompt.{tag_id}
use limon_backend.Scripts.SeedTestEvent.{
  event_a_text, event_b_text, manual_event, add_tags, seed_test_event,
}

abbrev pub Attempts : Outcome → World → Type 0
Attempts o w = o.status ≢ noop

abbrev pub Raised : Error → World → Type 0
Raised x w = Unit

abbrev Goes : Suggestion → Type 0
Goes (chosen ids) = Unit
Goes (stopped o) = o.status ≢ noop

retry_goes : retry ≢ noop
retry_goes = cc

failed_goes : failed ≢ noop
failed_goes = cc

done_goes : done ≢ noop
done_goes = cc

abbrev Suggests : Exec Suggestion → Type 0
Suggests m = Triple (λ _. Unit) m (λ s _. Goes s) Raised

after_tagger_error-Suggests : (x : Error) → Suggests (after_tagger_error x)
unfolding after_tagger_error
after_tagger_error-Suggests (tagger_busy after) = Triple-pure _ (λ w h. retry_goes)
after_tagger_error-Suggests (rate_limited after) = Triple-pure _ (λ w h. retry_goes)
after_tagger_error-Suggests tagger_unavailable = Triple-pure _ (λ w h. retry_goes)
after_tagger_error-Suggests tagger_not_configured = Triple-pure _ (λ w h. retry_goes)
after_tagger_error-Suggests tagger_response = Triple-pure _ (λ w h. failed_goes)
after_tagger_error-Suggests x = Triple-raise _ (λ w h. tt)

suggest-Suggests :
    (text : String) (existing : List (String × String)) → Suggests (suggest text existing)
unfolding suggest
suggest-Suggests text existing =
    Triple-try Raised
      (Triple-bind (λ _ _. Unit) (record { at = λ e w h. Ends-any _ })
        (λ ids. Triple-pure _ (λ w h. tt)))
      after_tagger_error-Suggests

write_tags-Attempts :
    (event : Event) (allowed : List String) (s : Suggestion) (e : Env) (w : World)
    → Goes s
    → Ends Attempts Raised (write_tags event allowed s e w)
unfolding write_tags
write_tags-Attempts event allowed (stopped o) e w h = Ends-pure _ _ o e w h
write_tags-Attempts event allowed (chosen ids) e w h =
    Ends-if _ _ (invented allowed ids) _ _ e w (λ _. Ends-pure _ _ _ e w failed_goes)
      λ _. Ends-ask _ _ _ _ e w (
        Ends-bind _ _ (λ _ _. Unit) _ _ e w (Ends-any _)
          λ _ w' _.
            Ends-bind _ _ (λ _ _. Unit) _ _ e w' (Ends-any _)
              λ _ w'' _. Ends-pure _ _ _ e w'' done_goes)

-- An event with no tags and some text is tried.
tag_found-Attempts :
    (event : Event) (e : Env) (w : World)
    → empty_or_none event.tag_ids ≡ true
    → is_blank (text_of event.title event.description) ≡ false
    → Ends Attempts Raised (tag_found (some event) e w)
unfolding tag_found
tag_found-Attempts event e w bare filled =
    Ends-if _ _ (not (empty_or_none event.tag_ids)) _ _ e w (λ k. absurd (ground (arith, bare, k)))
      λ _.
        Ends-if _ _ (is_blank (text_of event.title event.description)) _ _ e w
          (λ k. absurd (ground (arith, filled, k)))
          λ _.
            Ends-bind _ _ (λ _ _. Unit) _ _ e w (Ends-any _)
              λ p w' _.
                Ends-bind _ _ (λ s _. Goes s) _ _ e w'
                  ((suggest-Suggests (text_of event.title event.description) (map offered p.0)).at e
                    w' tt)
                  (λ s w'' h. write_tags-Attempts event (map tag_id (map offered p.0)) s e w'' h)

run_tagging-Attempts :
    (id : String) (event : Event) (e : Env) (w : World)
    → find (is_event id) w.db.events ≡ some event
    → empty_or_none event.tag_ids ≡ true
    → is_blank (text_of event.title event.description) ≡ false
    → Ends Attempts Raised (run_tagging id e w)
unfolding run_tagging
run_tagging-Attempts id event e w found bare filled =
    Ends-ask _ _ _ _ e w (rw found (tag_found-Attempts event e w bare filled))

find_new :
    (id : String) (xs ys : List Event)
    → find (is_event id) xs ≡ none
    → find (is_event id) (xs ++ ys) ≡ find (is_event id) ys
unfolding find
find_new id [] ys h = refl
find_new id (x ∷ xs) ys h = ground (arith, find_new id xs ys)

module _ (e : Env) (w : World) where
  abbrev id : ℕ → String
  id n = e.new_id w.trace n

  abbrev event_a : Event
  event_a = manual_event (id 0) event_a_text (e.now w.trace) (id 6)

  abbrev event_b : Event
  event_b = manual_event (id 0) event_b_text (e.now w.trace) (id 7)

  -- What one commit of the script stores of its events.
  record Seeded (ids : String × String) (w' : World) : Type 0 where
    ids_a : ids.0 ≡ id 6
    ids_b : ids.1 ≡ id 7
    stored : w'.db ≡ durable w'.trace
    events : w'.db.events ≡ (w.db.events ++ event_a ∷ []) ++ event_b ∷ []

  seed-Seeded : Ends Seeded (λ x w'. durable w'.trace ≡ durable w.trace) (seed_test_event e w)
  unfolding seed_test_event add_tags modify commit_session ask durable ◌>>=◌ pure
  seed-Seeded = ground arith

  module _ (new_a : find (is_event (id 6)) w.db.events ≡ none)
      (new_b : find (is_event (id 7)) w.db.events ≡ none) (distinct : (id 6 == id 7) ≡ false) where
    finds_a : find (is_event (id 6)) ((w.db.events ++ event_a ∷ []) ++ event_b ∷ []) ≡ some event_a
    unfolding find
    finds_a = rw append_assoc (rw (find_new (id 6) w.db.events _ new_a) (rw (eq_refl (id 6)) refl))

    finds_b : find (is_event (id 7)) ((w.db.events ++ event_a ∷ []) ++ event_b ∷ []) ≡ some event_b
    unfolding find
    finds_b =
        rw append_assoc
          (rw (find_new (id 7) w.db.events _ new_b) (rw distinct (rw (eq_refl (id 7)) refl)))

    attempted :
        (e' : Env) (ids : String × String) (w' : World)
        → Seeded ids w'
        → (w'.db ≡ durable w'.trace)
          × Ends Attempts Raised (run_tagging ids.0 e' w')
          × Ends Attempts Raised (run_tagging ids.1 e' w')
    unfolding is_blank
    attempted e' ids w' h = (
      h.stored,
      rw (h.ids_a) (run_tagging-Attempts (id 6) event_a e' w' (rw (h.events) finds_a) refl refl),
      rw (h.ids_b) (run_tagging-Attempts (id 7) event_b e' w' (rw (h.events) finds_b) refl refl),
    )

    -- Where the ids that the script draws for its two events are different and new, its one commit
    -- stores both events so that a tagging run tries each of them, in whatever environment: none is a
    -- no-op. Otherwise the script raises, and the stored rows stay as they were.
    pub seed_test_event-Attempts :
        (e' : Env)
        → Ends
            (λ ids w'.
              (w'.db ≡ durable w'.trace)
              × Ends Attempts Raised (run_tagging ids.0 e' w')
              × Ends Attempts Raised (run_tagging ids.1 e' w'))
            (λ x w'. durable w'.trace ≡ durable w.trace)
            (seed_test_event e w)
    seed_test_event-Attempts e' =
        Ends-weaken _ _ _ _ (seed_test_event e w) (attempted e') (λ x w' h. h) seed-Seeded
