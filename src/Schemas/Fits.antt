-- ===== src/Schemas/Fits.antt =====
-- The lengths of what an accepted request to create an event writes: app/schemas with
-- app/services/events.py.
use limon_backend.Base.{
  String, Bool, true, false, Option, none, some, List, [], ◌∷◌, ◌++◌, ◌≡◌, refl, arith, ◌&&◌, all,
}
use limon_backend.Models.{Event, EventType, text, audio, Recording, Db}
use limon_backend.Models.Table.{update_where}
use limon_backend.Runtime.Errors.{Error, Result, ok, err, data_error}
use limon_backend.Runtime.Ends.{Ends}
use limon_backend.Runtime.World.{
  Env, World, Exec, ask, try, ◌>>=◌, modify, emit, commit_session, columns_fit, event_fits,
  recording_fits, fits,
}
use limon_backend.Runtime.Triple.{Triple, Triple-pure, Triple-ask, Triple-bind}
use limon_backend.TaskQueue.{create_cloud_task, enqueue_tagging}
use limon_backend.Tagging.Dispatch.{dispatch_tagging, run_locally}
use limon_backend.Storage.{presign_put, presign_in}
use limon_backend.Events.{
  EventCreate, add_event, add_recording, new_event, create_event, create_or_return, create_new,
  create_audio, create_text, maybe_enqueue_tagging, swallow, mint_signed_url, mint_for,
}
use limon_backend.Events.Retries.{tagging-db}
use limon_backend.Schemas.{EventBody, read_event_create}

abbrev pub is_data_error : Error → Bool
is_data_error data_error = true
is_data_error _ = false

-- The session's rows fit their columns.
abbrev pub Fits : World → Type 0
Fits w = columns_fit w.db ≡ true

-- Run over rows that fit, a call leaves rows that fit, and raises no error about a length.
abbrev pub StaysFit : {A : Type 0} → Exec A → Type 0
StaysFit m = Triple Fits m (λ _. Fits) (λ x _. is_data_error x ≡ false)

pub commit-StaysFit : StaysFit commit_session
unfolding commit_session
commit-StaysFit = record { at = λ e w h. ground (arith, h) }

pub modify-StaysFit :
    (f : Db → Db)
    → ((d : Db) → columns_fit d ≡ true → columns_fit (f d) ≡ true)
    → StaysFit (modify f)
unfolding modify
modify-StaysFit f h = record { at = λ e w k. h w.db k }

tagging-ok : (x : Event) (e : Env) (w : World) → (maybe_enqueue_tagging x e w).0 ≡ ok tt
unfolding maybe_enqueue_tagging swallow dispatch_tagging run_locally enqueue_tagging
    create_cloud_task emit try ◌>>=◌
tagging-ok x e w = ground arith

quiet-Ends :
    (r : Result (Unit {0}) × World) (w : World)
    → r.0 ≡ ok tt
    → r.1.db ≡ w.db
    → Fits w
    → Ends (λ _. Fits) (λ x _. is_data_error x ≡ false) r
quiet-Ends (ok a, v) w h k f = rw k f
quiet-Ends (err x, v) w h k f = absurd (ground (arith, h))

pub tagging-StaysFit : (x : Event) → StaysFit (maybe_enqueue_tagging x)
tagging-StaysFit x = record {
  at = λ e w h. quiet-Ends (maybe_enqueue_tagging x e w) w (tagging-ok x e w) (tagging-db x e w) h;
}

mint-StaysFit : (id : Option String) → StaysFit (mint_signed_url id)
unfolding mint_signed_url mint_for presign_put presign_in emit ◌>>=◌
mint-StaysFit id = record { at = λ e w h. ground (arith, h) }

presign-StaysFit : (key content_type : String) → StaysFit (presign_put key content_type)
unfolding presign_put presign_in emit ◌>>=◌
presign-StaysFit key content_type = record { at = λ e w h. ground (arith, h) }

all-added :
    {A : Type 0} (p : A → Bool) (xs : List A) (x : A)
    → all p xs ≡ true
    → p x ≡ true
    → all p (xs ++ x ∷ []) ≡ true
all-added p [] x h k = ground (arith, k)
all-added p (y ∷ ys) x h k = ground (arith, all-added p ys x, h, k)

pub all-update_where :
    {A : Type 0} (p q : A → Bool) (f : A → A) (xs : List A)
    → all p xs ≡ true
    → ((x : A) → p x ≡ true → p (f x) ≡ true)
    → all p (update_where q f xs) ≡ true
unfolding update_where
all-update_where p q f [] h k = refl
all-update_where p q f (x ∷ xs) h k = ground (arith, all-update_where p q f xs, h, k x)

add_event-fit :
    (x : Event) (d : Db)
    → event_fits x ≡ true
    → columns_fit d ≡ true
    → columns_fit (add_event x d) ≡ true
unfolding columns_fit
add_event-fit x d f h = ground (arith, all-added event_fits d.events x, f, h)

add_recording-fit :
    (r : Recording) (d : Db)
    → recording_fits r ≡ true
    → columns_fit d ≡ true
    → columns_fit (add_recording r d) ≡ true
unfolding columns_fit
add_recording-fit r d f h = ground (arith, all-added recording_fits d.recordings r, f, h)

pub asks :
    {A : Type 0} (f : Env → World → A)
    → Triple Fits (ask f) (λ _. Fits) (λ x _. is_data_error x ≡ false)
asks f = Triple-ask f (λ e w h. h)

module _ (user : String) (p : EventCreate)
    (short : (fits 200 p.title && fits 2000 p.description && fits 36 p.client_event_id)
      ≡ true) where
  create_text-StaysFit : StaysFit (create_text user p)
  unfolding create_text
  create_text-StaysFit =
      Triple-bind (λ _. Fits) (asks _)
        λ now.
          Triple-bind (λ _. Fits) (asks _)
            λ id.
              Triple-bind (λ _. Fits)
                (modify-StaysFit _
                  (λ d. add_event-fit (new_event user p now id none) d (ground (arith, short))))
                λ _.
                  Triple-bind (λ _. Fits) commit-StaysFit
                    λ _. Triple-bind (λ _. Fits) (tagging-StaysFit _) λ _. Triple-pure _ (λ w h. h)

  create_audio-StaysFit : StaysFit (create_audio user p)
  unfolding create_audio
  create_audio-StaysFit =
      Triple-bind (λ _. Fits) (asks _)
        λ record_id.
          Triple-bind (λ _. Fits) (presign-StaysFit _ _)
            λ url.
              Triple-bind (λ _. Fits) (asks _)
                λ now.
                  Triple-bind (λ _. Fits) (modify-StaysFit _ (λ d. add_recording-fit _ d refl))
                    λ _.
                      Triple-bind (λ _. Fits) (asks _)
                        λ id.
                          Triple-bind (λ _. Fits)
                            (modify-StaysFit _ (λ d.
                              add_event-fit (new_event user p now id (some record_id)) d
                                (ground (arith, short))))
                            λ _.
                              Triple-bind (λ _. Fits) commit-StaysFit λ _. Triple-pure _ (λ w h. h)

  create_new-StaysFit : (type : EventType) → StaysFit (create_new type user p)
  unfolding create_new
  create_new-StaysFit text = create_text-StaysFit
  create_new-StaysFit audio = create_audio-StaysFit

  create_or_return-StaysFit : (found : Option Event) → StaysFit (create_or_return user p found)
  unfolding create_or_return
  create_or_return-StaysFit none = create_new-StaysFit p.type
  create_or_return-StaysFit (some x) =
      Triple-bind (λ _. Fits) (mint-StaysFit x.recording_id) λ url. Triple-pure _ (λ w h. h)

accepted_short :
    (b : EventBody) (p : EventCreate)
    → read_event_create b ≡ ok p
    → (fits 200 p.title && fits 2000 p.description && fits 36 p.client_event_id) ≡ true
unfolding read_event_create
accepted_short b p h = ground (arith, h)

-- Whatever the database checks of lengths, a request to create an event that its schema accepts never
-- raises for a text that is too long, where the rows that are there fit; and they fit afterwards.
pub create_event-StaysFit :
    (b : EventBody) (p : EventCreate) (user : String)
    → read_event_create b ≡ ok p
    → StaysFit (create_event user p)
unfolding create_event
create_event-StaysFit b p user h =
    Triple-bind (λ _. Fits) (asks _) (create_or_return-StaysFit user p (accepted_short b p h))
