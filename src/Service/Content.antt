-- ===== src/Service/Content.antt =====
-- The routes of app/routers/events.py and tags.py, which send no acknowledgement.
use limon_backend.Base.{ℕ, String, Option, none, some, refl}
use limon_backend.Models.{Event, EventType, Recording, Tag}
use limon_backend.Models.EventType.{audio, text}
use limon_backend.Runtime.Errors.{Error, integrity_error, storage_not_configured}
use limon_backend.Runtime.Keeps.{Keeps}
use limon_backend.Runtime.World.{World, modify}
use limon_backend.Events
use limon_backend.Events.{
  EventCreate, EventUpdate, swallow, maybe_enqueue_tagging, mint_for, mint_signed_url, create_audio,
  add_recording, new_recording, create_text, create_new, create_or_return, has_events,
}
use limon_backend.Storage.{signer_or_attached, signing_kwargs, presign_in, presign_put}
use limon_backend.Storage.Keys.{audio_object_key}
use limon_backend.Tagging.Dispatch.{dispatch_tagging}
use limon_backend.Tags
use limon_backend.Tags.{
  Patch, unset, given, TagUpdate, winner_or_raise, after_insert_error, insert_tag, upsert_found,
  upsert_tag_by_name, get_tag, get_tag_by_name,
}
use limon_backend.Transcription.Invariants.{dispatch_tagging-Keeps}
use limon_backend.Transcription.Settled.{AcksNothing}
use limon_backend.Service.Invariants.{
  IsServiceInvariant, added_keys, service_steps, service-IsInvariant,
}
use limon_backend.Routers
use limon_backend.Routers.Events.{get_event_or_404, storage_to_503}
use limon_backend.Routers.Tags.{get_own_tag_or_404, ensure_name_free, check_rename}

module _ {P : World → Type 0} (inv : IsServiceInvariant AcksNothing P) where
  -- Signed uploads.
  signer-Keeps : (account : Option String) → Keeps P (signer_or_attached account)
  unfolding signer_or_attached
  signer-Keeps none = search service_steps depth 8
  signer-Keeps (some account) = search service_steps

  presign_in-Keeps :
      (bucket : Option String) (key content_type : String)
      → Keeps P (presign_in bucket key content_type)
  unfolding presign_in signing_kwargs
  presign_in-Keeps none key content_type = search service_steps
  presign_in-Keeps (some bucket) key content_type = search (service_steps, signer-Keeps) depth 8

  presign_put-Keeps : (key content_type : String) → Keeps P (presign_put key content_type)
  unfolding presign_put
  presign_put-Keeps key content_type = search (service_steps, presign_in-Keeps)

  -- Events.
  tags-Keeps : (id : String) → Keeps P (dispatch_tagging id)
  tags-Keeps = dispatch_tagging-Keeps (service-IsInvariant inv)

  maybe_enqueue_tagging-Keeps : (x : Event) → Keeps P (maybe_enqueue_tagging x)
  unfolding maybe_enqueue_tagging swallow
  maybe_enqueue_tagging-Keeps x = search (service_steps, tags-Keeps)

  mint_for-Keeps : (r : Option Recording) → Keeps P (mint_for r)
  unfolding mint_for
  mint_for-Keeps none = search service_steps
  mint_for-Keeps (some r) = search (service_steps, presign_put-Keeps)

  mint_signed_url-Keeps : (id : Option String) → Keeps P (mint_signed_url id)
  unfolding mint_signed_url
  mint_signed_url-Keeps none = search service_steps
  mint_signed_url-Keeps (some id) = search (service_steps, mint_for-Keeps)

  -- A new recording is at its key.
  records-Keeps :
      (user_id : String) (duration : Option ℕ) (now : ℕ) (id : String)
      → Keeps P (
          modify
            (add_recording (new_recording user_id (audio_object_key user_id id) duration now id)))
  records-Keeps user_id duration now id = inv.changes _ (λ d h. added_keys d.recordings _ h refl)

  create_new-Keeps :
      (t : EventType) (user_id : String) (p : EventCreate) → Keeps P (create_new t user_id p)
  unfolding create_new create_audio create_text
  create_new-Keeps audio user_id p =
      search (service_steps, records-Keeps, presign_put-Keeps) depth 12
  create_new-Keeps text user_id p = search (service_steps, maybe_enqueue_tagging-Keeps) depth 10

  create_or_return-Keeps :
      (user_id : String) (p : EventCreate) (found : Option Event)
      → Keeps P (create_or_return user_id p found)
  unfolding create_or_return
  create_or_return-Keeps user_id p none = create_new-Keeps p.type user_id p
  create_or_return-Keeps user_id p (some x) = search (service_steps, mint_signed_url-Keeps)

  storage_to_503-Keeps : (x : Error) → Keeps P (storage_to_503 x)
  unfolding storage_to_503
  storage_to_503-Keeps storage_not_configured = search service_steps
  storage_to_503-Keeps _ = search service_steps

  pub create_event-Keeps :
      (user_id : String) (p : EventCreate) → Keeps P (Routers.Events.create_event user_id p)
  unfolding Routers.Events.create_event Events.create_event
  create_event-Keeps user_id p =
      search (service_steps, create_or_return-Keeps, storage_to_503-Keeps) depth 8

  pub get_event-Keeps : (id user_id : String) → Keeps P (get_event_or_404 id user_id)
  unfolding get_event_or_404 Events.get_event
  get_event-Keeps id user_id = search service_steps

  pub update_event-Keeps :
      (user_id id : String) (p : EventUpdate) → Keeps P (Routers.Events.update_event user_id id p)
  unfolding Routers.Events.update_event Events.update_event
  update_event-Keeps user_id id p =
      search (service_steps, get_event-Keeps, maybe_enqueue_tagging-Keeps) depth 12

  pub delete_event-Keeps : (user_id id : String) → Keeps P (Routers.Events.delete_event user_id id)
  unfolding Routers.Events.delete_event Events.delete_event
  delete_event-Keeps user_id id = search (service_steps, get_event-Keeps) depth 8

  -- Tags.
  winner_or_raise-Keeps : (found : Option Tag) → Keeps P (winner_or_raise found)
  unfolding winner_or_raise
  winner_or_raise-Keeps none = search service_steps
  winner_or_raise-Keeps (some t) = search service_steps

  after_insert_error-Keeps :
      (user_id name : String) (x : Error) → Keeps P (after_insert_error user_id name x)
  unfolding after_insert_error get_tag_by_name
  after_insert_error-Keeps user_id name integrity_error =
      search (service_steps, winner_or_raise-Keeps)
  after_insert_error-Keeps user_id name _ = search service_steps

  upsert_found-Keeps :
      (user_id name : String) (color : Option String) (found : Option Tag)
      → Keeps P (upsert_found user_id name color found)
  unfolding upsert_found insert_tag
  upsert_found-Keeps user_id name color (some t) = search service_steps
  upsert_found-Keeps user_id name color none =
      search (service_steps, after_insert_error-Keeps) depth 8

  pub create_tag-Keeps :
      (user_id name : String) (color : Option String)
      → Keeps P (Routers.Tags.create_tag user_id name color)
  unfolding Routers.Tags.create_tag upsert_tag_by_name get_tag_by_name
  create_tag-Keeps user_id name color = search (service_steps, upsert_found-Keeps)

  own_tag-Keeps : (user_id id : String) → Keeps P (get_own_tag_or_404 user_id id)
  unfolding get_own_tag_or_404 get_tag
  own_tag-Keeps user_id id = search service_steps

  check_rename-Keeps : (t : Tag) (p : Patch (Option String)) → Keeps P (check_rename t p)
  unfolding check_rename ensure_name_free get_tag_by_name
  check_rename-Keeps t unset = search service_steps
  check_rename-Keeps t (given none) = search service_steps
  check_rename-Keeps t (given (some name)) = search service_steps

  pub update_tag-Keeps :
      (user_id id : String) (p : TagUpdate) → Keeps P (Routers.Tags.update_tag user_id id p)
  unfolding Routers.Tags.update_tag Tags.update_tag
  update_tag-Keeps user_id id p = search (service_steps, own_tag-Keeps, check_rename-Keeps) depth 10

  pub delete_tag-Keeps : (user_id id : String) → Keeps P (Routers.Tags.delete_tag user_id id)
  unfolding Routers.Tags.delete_tag Tags.delete_tag
  delete_tag-Keeps user_id id = search (service_steps, own_tag-Keeps) depth 10
