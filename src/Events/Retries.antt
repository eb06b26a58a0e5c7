-- ===== src/Events/Retries.antt =====
-- A request to create an event that is sent again.
use limon_backend.Base.{
  ℕ, String, Bool, true, Option, none, some, List, [], ◌∷◌, ◌++◌, ◌≡◌, arith, eq_refl, Option-cases,
  inl, inr,
}
use limon_backend.Models.{Event, EventType, text, audio}
use limon_backend.Models.Table.{find}
use limon_backend.Runtime.Errors.{Result}
use limon_backend.Runtime.Ends.{Ends, Ends-weaken}
use limon_backend.Runtime.World.{Env, World, ◌>>=◌, try, modify, emit, commit_session}
use limon_backend.TaskQueue.{create_cloud_task, enqueue_tagging}
use limon_backend.Tagging.Dispatch.{dispatch_tagging, run_locally}
use limon_backend.Events.{
  EventCreate, is_retry_of, create_event, create_or_return, create_new, create_audio, create_text,
  new_event, maybe_enqueue_tagging, swallow, mint_signed_url, mint_for,
}
use limon_backend.Storage.{presign_put, presign_in}

find-last :
    (p : Event → Bool) (xs : List Event) (x : Event)
    → find p xs ≡ none
    → p x ≡ true
    → find p (xs ++ x ∷ []) ≡ some x
unfolding find
find-last p [] x n h = ground arith
find-last p (y ∷ ys) x n h = ground (arith, find-last p ys x)

mint-db : (id : Option String) (e : Env) (w : World) → (mint_signed_url id e w).1.db ≡ w.db
unfolding mint_signed_url mint_for presign_put presign_in emit ◌>>=◌
mint-db id e w = ground arith

pub tagging-db : (x : Event) (e : Env) (w : World) → (maybe_enqueue_tagging x e w).1.db ≡ w.db
unfolding maybe_enqueue_tagging swallow dispatch_tagging run_locally enqueue_tagging
    create_cloud_task emit try ◌>>=◌
tagging-db x e w = ground arith

-- It answers with the event that is there.
abbrev pub Repeats : Event → World → Result (Event × Option String) × World → Type 0
Repeats x w r = Ends (λ b v. (b.0 ≡ x) × (v.db ≡ w.db)) (λ _ v. v.db ≡ w.db) r

pub repeats :
    (user : String) (p : EventCreate) (x : Event) (e : Env) (w : World)
    → find (is_retry_of user p.client_event_id) w.db.events ≡ some x
    → Repeats x w (create_event user p e w)
unfolding create_event create_or_return ◌>>=◌
repeats user p x e w f = rw f (ground (arith, mint-db x.recording_id e w))

module _ (user : String) (p : EventCreate) (key : String)
    (given : p.client_event_id ≡ some key) where
  matches :
      (now : ℕ) (id : String) (recording : Option String)
      → is_retry_of user p.client_event_id (new_event user p now id recording) ≡ true
  matches now id recording = ground (arith, eq_refl user, eq_refl key)

  Finds : Event × Option String → World → Type 0
  Finds a v = find (is_retry_of user p.client_event_id) v.db.events ≡ some a.0

  module _ (e : Env) (w : World)
      (fresh : find (is_retry_of user p.client_event_id) w.db.events ≡ none) where
    added :
        (now : ℕ) (id : String) (recording : Option String)
        → find
            (is_retry_of user p.client_event_id)
            (w.db.events ++ new_event user p now id recording ∷ [])
          ≡ some (new_event user p now id recording)
    added now id recording = find-last _ w.db.events _ fresh (matches now id recording)

    create_audio-Finds : Ends Finds (λ _ _. Unit) (create_audio user p e w)
    unfolding create_audio modify commit_session presign_put presign_in emit Finds ◌>>=◌
    create_audio-Finds = grind (arith, added)

    create_text-Finds : Ends Finds (λ _ _. Unit) (create_text user p e w)
    unfolding create_text modify commit_session Finds ◌>>=◌
    create_text-Finds = grind (arith, added, tagging-db)

    create_new-Finds : (type : EventType) → Ends Finds (λ _ _. Unit) (create_new type user p e w)
    unfolding create_new
    create_new-Finds audio = create_audio-Finds
    create_new-Finds text = create_text-Finds

  create_event-Finds : (e : Env) (w : World) → Ends Finds (λ _ _. Unit) (create_event user p e w)
  unfolding create_event create_or_return Finds ◌>>=◌
  create_event-Finds e w =
      elim (Option-cases (find (is_retry_of user p.client_event_id) w.db.events)) [
        | inl n ↦ rw n (create_new-Finds e w n p.type)
        | inr (x, f) ↦ rw f (ground (arith, mint-db x.recording_id e w, f))
      ]

-- A request with a client key, sent again after it returned: whatever the other services answer then,
-- it returns the event that the first one returned, or raises, and it changes no row of the session.
pub create_event_again :
    (user : String) (p : EventCreate) (key : String) (e e' : Env) (w : World)
    → p.client_event_id ≡ some key
    → Ends (λ a v. Repeats a.0 v (create_event user p e' v)) (λ _ _. Unit) (create_event user p e w)
unfolding Finds
create_event_again user p key e e' w given =
    Ends-weaken (Finds user p key given) _ (λ _ _. Unit) _ (create_event user p e w)
      (λ a v found. repeats user p a.0 e' v found) (λ x v h. h)
      (create_event-Finds user p key given e w)
