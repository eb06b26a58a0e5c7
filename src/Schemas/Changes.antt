-- ===== src/Schemas/Changes.antt =====
-- The lengths of what an accepted request to change an event writes: app/schemas with
-- app/routers/events.py.
use limon_backend.Base.{
  ℕ, String, Bool, true, false, Option, some, List, [], ◌∷◌, ◌≡◌, refl, arith, ◌&&◌, ◌||◌, all,
  Option-cases, inl, inr,
}
use limon_backend.Models.{Event, Db}
use limon_backend.Models.Table.{find, update_where}
use limon_backend.Runtime.Errors.{ok}
use limon_backend.Runtime.World.{World, pure, lift, ◌>>=◌, ◌>>◌, columns_fit, event_fits}
use limon_backend.Runtime.Triple.{Triple, Triple-pure, Triple-bind, Triple-if, Triple-given}
use limon_backend.Tags.{Patch}
use limon_backend.Events
use limon_backend.Events.{
  EventUpdate, updated, new_time, same_id, is_given, is_owned_event, get_event,
  maybe_enqueue_tagging,
}
use limon_backend.Routers.Events.{get_event_or_404, or_404}
use limon_backend.Routers
use limon_backend.Schemas.{read_event_update, patch_fits}
use limon_backend.Schemas.Fits.{
  Fits, StaysFit, is_data_error, commit-StaysFit, modify-StaysFit, tagging-StaysFit, asks,
  all-update_where,
}

find-all :
    (p q : Event → Bool) (xs : List Event) (x : Event)
    → all p xs ≡ true
    → find q xs ≡ some x
    → p x ≡ true
unfolding find
find-all p q [] x h f = absurd (ground (arith, f))
find-all p q (y ∷ ys) x h f = ground (arith, find-all p q ys x, h, f)

module _ (x : Event) (p : EventUpdate) (own : event_fits x ≡ true)
    (short : (patch_fits 200 p.title && patch_fits 2000 p.description) ≡ true) where
  updated-fit : (occurred now : ℕ) → event_fits (updated x p occurred now) ≡ true
  updated-fit occurred now = ground (arith, own, short)

  replaced-fit :
      (y : Event) (d : Db)
      → event_fits y ≡ true
      → columns_fit d ≡ true
      → columns_fit (record d { events = update_where (same_id x.id) (λ _. y) d.events }) ≡ true
  unfolding columns_fit
  replaced-fit y d f h =
      ground (arith, all-update_where event_fits (same_id x.id) (λ _. y) d.events, f, h)

  new_time-StaysFit : (o : Patch (Option ℕ)) (t : ℕ) → StaysFit (lift (new_time o t))
  unfolding lift new_time
  new_time-StaysFit o t = record { at = λ e w h. ground (arith, h) }

  change-StaysFit : StaysFit (Events.update_event x p)
  unfolding Events.update_event
  change-StaysFit =
      Triple-bind (λ _. Fits) (asks _)
        λ now.
          Triple-bind (λ _. Fits) (new_time-StaysFit _ _)
            λ occurred.
              Triple-bind (λ _. Fits)
                (modify-StaysFit _ (λ d. replaced-fit _ d (updated-fit occurred now)))
                λ _.
                  Triple-bind (λ _. Fits) commit-StaysFit
                    λ _.
                      let y = updated x p occurred now in
                      Triple-if (is_given p.title || is_given p.description)
                        (maybe_enqueue_tagging y >> pure y) (pure y)
                        (λ _.
                          Triple-bind (λ _. Fits) (tagging-StaysFit y)
                            λ _. Triple-pure y (λ w h. h))
                        (λ _. Triple-pure y (λ w h. h))

-- The event of the request fits, since the rows do.
Own : Event → World → Type 0
Own x w = Fits w × (event_fits x ≡ true)

get_event_or_404-Own :
    (id user : String) → Triple Fits (get_event_or_404 id user) Own (λ x _. is_data_error x ≡ false)
unfolding get_event_or_404 get_event or_404 lift ◌>>=◌ Own columns_fit
get_event_or_404-Own id user = record {
  at = λ e w h. elim (Option-cases (find (is_owned_event id user) w.db.events)) [
    | inl f ↦ rw f refl
    | inr (x, f) ↦
        rw f (h, find-all event_fits (is_owned_event id user) w.db.events x (ground (arith, h)) f)
  ];
}

accepted_short :
    (p p' : EventUpdate)
    → read_event_update p ≡ ok p'
    → (patch_fits 200 p'.title && patch_fits 2000 p'.description) ≡ true
unfolding read_event_update
accepted_short p p' h = ground (arith, h)

-- Whatever the database checks of lengths, a request to change an event that its schema accepts never
-- raises for a text that is too long, where the rows that are there fit; and they fit afterwards.
pub update_event-StaysFit :
    (user id : String) (p p' : EventUpdate)
    → read_event_update p ≡ ok p'
    → StaysFit (Routers.Events.update_event user id p')
unfolding Routers.Events.update_event Own
update_event-StaysFit user id p p' h =
    Triple-bind Own (get_event_or_404-Own id user) λ x.
      Triple-given (event_fits x ≡ true) λ own. change-StaysFit x p' own (accepted_short p p' h)
