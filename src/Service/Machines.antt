-- ===== src/Service/Machines.antt =====
-- The routes of app/routers/internal.py and the local tagging, which send no acknowledgement but in a
-- recovery pass.
use limon_backend.Base.{String, Option, none, some, List, [], ◌∷◌}
use limon_backend.Models.{Event, Recording}
use limon_backend.Runtime.Errors.{
  Error, tagger_not_configured, tagger_unavailable, tagger_response, tagger_busy, rate_limited,
}
use limon_backend.Runtime.Wire.{Response}
use limon_backend.Runtime.Keeps.{Keeps}
use limon_backend.Runtime.World.{World, send}
use limon_backend.Settings.{Settings}
use limon_backend.TaskQueue.Keeps.{enqueue_transcription-Keeps}
use limon_backend.Storage.{delete_one, delete_exact, delete_audio_sync, delete_orphan_audio_object}
use limon_backend.Tags.{list_tags}
use limon_backend.Tagger
use limon_backend.Tagger.{send_prompt, suggest_tags}
use limon_backend.Tagger.Prompt.{prepare}
use limon_backend.Tagging.Run.{
  Suggestion, chosen, stopped, after_tagger_error, suggest, write_tags, tag_found, run_tagging,
  run_local_tagging,
}
use limon_backend.Transcription.Submit.{run_transcription}
use limon_backend.Transcription.Invariants.Submission.{run_transcription-Keeps}
use limon_backend.Transcription.Settled.{AcksNothing}
use limon_backend.Service.Invariants.{
  IsServiceInvariant, service_steps, service-IsInvariant, queues-Keeps,
}
use limon_backend.Routers.Internal.{
  require_internal_auth, transcribe, tag, uploaded, payload_name, object_name, finalize_row,
  finalize_key, finalize, PubSubMessage,
}

module _ {P : World → Type 0} (inv : IsServiceInvariant AcksNothing P) where
  -- Tagging.
  parse_retry_after-Keeps : (o : Option String) → Keeps P (Tagger.parse_retry_after o)
  unfolding Tagger.parse_retry_after
  parse_retry_after-Keeps none = search service_steps
  parse_retry_after-Keeps (some value) = search service_steps

  raise_for_status-Keeps : (r : Response) → Keeps P (Tagger.raise_for_status r)
  unfolding Tagger.raise_for_status
  raise_for_status-Keeps r = search (service_steps, parse_retry_after-Keeps) depth 8

  asks-Keeps :
      (settings : Settings) (key entry : String) (tags : List (String × String))
      → Keeps P (send (prepare settings key entry tags).0)
  unfolding prepare
  asks-Keeps settings key entry tags = inv.sends _ (λ d. tt)

  prepared-Keeps :
      (settings : Settings) (key entry : String) (tags : List (String × String))
      → Keeps P
          (send_prompt (prepare settings key entry tags).0 (prepare settings key entry tags).1)
  unfolding send_prompt
  prepared-Keeps settings key entry tags =
      search (service_steps, asks-Keeps, raise_for_status-Keeps) depth 8

  suggest_tags-Keeps :
      (entry : String) (tags : List (String × String)) → Keeps P (suggest_tags entry tags)
  unfolding suggest_tags
  suggest_tags-Keeps entry tags = search (service_steps, prepared-Keeps) depth 8

  after_tagger_error-Keeps : (x : Error) → Keeps P (after_tagger_error x)
  unfolding after_tagger_error
  after_tagger_error-Keeps (tagger_busy after) = search service_steps
  after_tagger_error-Keeps (rate_limited after) = search service_steps
  after_tagger_error-Keeps tagger_unavailable = search service_steps
  after_tagger_error-Keeps tagger_not_configured = search service_steps
  after_tagger_error-Keeps tagger_response = search service_steps
  after_tagger_error-Keeps _ = search service_steps

  suggest-Keeps : (text : String) (tags : List (String × String)) → Keeps P (suggest text tags)
  unfolding suggest
  suggest-Keeps text tags = search (service_steps, suggest_tags-Keeps, after_tagger_error-Keeps)

  write_tags-Keeps :
      (x : Event) (allowed : List String) (s : Suggestion) → Keeps P (write_tags x allowed s)
  unfolding write_tags
  write_tags-Keeps x allowed (stopped o) = search service_steps
  write_tags-Keeps x allowed (chosen ids) = search service_steps depth 8

  tag_found-Keeps : (x : Option Event) → Keeps P (tag_found x)
  unfolding tag_found list_tags
  tag_found-Keeps none = search service_steps
  tag_found-Keeps (some x) = search (service_steps, suggest-Keeps, write_tags-Keeps) depth 8

  run_tagging-Keeps : (id : String) → Keeps P (run_tagging id)
  unfolding run_tagging
  run_tagging-Keeps id = search (service_steps, tag_found-Keeps)

  pub run_local_tagging-Keeps : (id : String) → Keeps P (run_local_tagging id)
  unfolding run_local_tagging
  run_local_tagging-Keeps id = search (service_steps, run_tagging-Keeps)

  require_internal_auth-Keeps : (token : Option String) → Keeps P (require_internal_auth token)
  unfolding require_internal_auth
  require_internal_auth-Keeps token = search service_steps

  pub tag-Keeps : (token : Option String) (id : String) → Keeps P (tag token id)
  unfolding tag
  tag-Keeps token id = search (service_steps, require_internal_auth-Keeps, run_tagging-Keeps)

  -- Submission.
  attempt-Keeps : (id : String) → Keeps P (run_transcription id)
  attempt-Keeps id = run_transcription-Keeps (service-IsInvariant inv) id (λ _ _ _ d. tt) (λ d. tt)

  pub transcribe-Keeps : (token : Option String) (id : String) → Keeps P (transcribe token id)
  unfolding transcribe
  transcribe-Keeps token id = search (service_steps, require_internal_auth-Keeps, attempt-Keeps)

  -- Notifications of uploads.
  pub delete_one-Keeps : (key : String) → Keeps P (delete_one key)
  unfolding delete_one
  delete_one-Keeps key = search service_steps

  delete_exact-Keeps :
      (key : String) (names : List (Option String)) → Keeps P (delete_exact key names)
  unfolding delete_exact
  delete_exact-Keeps key [] = search service_steps
  delete_exact-Keeps key (none ∷ names) = search service_steps
  delete_exact-Keeps key (some name ∷ names) =
      let rest = delete_exact-Keeps key names in search (service_steps, delete_one-Keeps)

  delete_audio_sync-Keeps : (key : String) → Keeps P (delete_audio_sync key)
  unfolding delete_audio_sync
  delete_audio_sync-Keeps key = search (service_steps, delete_one-Keeps, delete_exact-Keeps) depth 8

  orphan-Keeps : (key : String) → Keeps P (delete_orphan_audio_object key)
  unfolding delete_orphan_audio_object
  orphan-Keeps key = search (service_steps, delete_audio_sync-Keeps)

  finalize_row-Keeps :
      (id name : String) (found : Option Recording) → Keeps P (finalize_row id name found)
  unfolding finalize_row
  finalize_row-Keeps id name none = search (service_steps, orphan-Keeps)
  finalize_row-Keeps id name (some r) =
      search (service_steps, enqueue_transcription-Keeps P (queues-Keeps inv))

  finalize_key-Keeps : (name : String) (id : Option String) → Keeps P (finalize_key name id)
  unfolding finalize_key
  finalize_key-Keeps name none = search service_steps
  finalize_key-Keeps name (some id) = search (service_steps, finalize_row-Keeps)

  finalize-Keeps : (name : Option String) → Keeps P (finalize name)
  unfolding finalize
  finalize-Keeps none = search service_steps
  finalize-Keeps (some name) = finalize_key-Keeps name _

  object_name-Keeps : (m : PubSubMessage) → Keeps P (object_name m)
  unfolding object_name payload_name
  object_name-Keeps m = search service_steps depth 8

  pub uploaded-Keeps : (token : Option String) (m : PubSubMessage) → Keeps P (uploaded token m)
  unfolding uploaded
  uploaded-Keeps token m =
      search (service_steps, require_internal_auth-Keeps, object_name-Keeps, finalize-Keeps) depth 8
