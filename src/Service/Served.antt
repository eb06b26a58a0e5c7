-- ===== src/Service/Served.antt =====
-- A condition that each step of a request keeps holds after any requests.
use limon_backend.Base.{String, Option}
use limon_backend.Models.{User}
use limon_backend.Runtime.Keeps.{Keeps, keeps_rules, Keeps-bind, Keeps-pure}
use limon_backend.Runtime.World.{Env, World, Exec, Trace, pure, ◌>>◌}
use limon_backend.Transcription.Settled.{AcksNothing}
use limon_backend.Routers
use limon_backend.Routers.Internal.{require_callback_auth, check_secret, transcripts_ready}
use limon_backend.Service.{
  ClientRequest, get_me, create_my_demo_data, delete_me, update_me, create_event, get_event,
  delete_event, update_event, create_tag, update_tag, delete_tag, Arrival, client, transcribe, tag,
  callback, uploaded, local_tagging, client_route, route, session_over, served, Reaches, here, next,
}
use limon_backend.Service.Invariants.{IsServiceInvariant}
use limon_backend.Service.Machines.{
  run_local_tagging-Keeps, tag-Keeps, transcribe-Keeps, uploaded-Keeps,
}
use limon_backend.Service.Accounts.{
  get_current_user-Keeps, delete_me-Keeps, create_my_demo_data-Keeps, update_me-Keeps, get_me-Keeps,
}
use limon_backend.Service.Content.{
  create_event-Keeps, get_event-Keeps, update_event-Keeps, delete_event-Keeps, create_tag-Keeps,
  update_tag-Keeps, delete_tag-Keeps,
}

pub guard-Keeps :
    (P : World → Type 0) (headers : String → Option String)
    → Keeps P (require_callback_auth headers)
unfolding require_callback_auth check_secret
guard-Keeps P headers = search keeps_rules depth 8

module _ {P : World → Type 0} (inv : IsServiceInvariant AcksNothing P) where
  client_route-Keeps : (u : User) (r : ClientRequest) → Keeps P (client_route u r)
  unfolding client_route Routers.Events.get_event
  client_route-Keeps u get_me = search (keeps_rules, get_me-Keeps inv)
  client_route-Keeps u create_my_demo_data = search (keeps_rules, create_my_demo_data-Keeps inv)
  client_route-Keeps u delete_me = search (keeps_rules, delete_me-Keeps inv)
  client_route-Keeps u (update_me payload) = search (keeps_rules, update_me-Keeps inv)
  client_route-Keeps u (create_event payload) = search (keeps_rules, create_event-Keeps inv)
  client_route-Keeps u (get_event id) = search (keeps_rules, get_event-Keeps inv)
  client_route-Keeps u (delete_event id) = search (keeps_rules, delete_event-Keeps inv)
  client_route-Keeps u (update_event id payload) = search (keeps_rules, update_event-Keeps inv)
  client_route-Keeps u (create_tag name color) = search (keeps_rules, create_tag-Keeps inv)
  client_route-Keeps u (update_tag id payload) = search (keeps_rules, update_tag-Keeps inv)
  client_route-Keeps u (delete_tag id) = search (keeps_rules, delete_tag-Keeps inv)

  -- A call whose answer is dropped.
  quiet : {A : Type 0} (m : Exec A) → Keeps P m → Keeps P (m >> pure {A = Unit {0}} tt)
  quiet m k = Keeps-bind P m _ k (λ _. Keeps-pure P tt)

  module _ (restarts : (w : World) → P w → P (session_over w.trace))
      (callbacks : (headers : String → Option String) (e : Env) (t : Trace)
        → P (session_over t)
        → P ((transcripts_ready headers >> pure {A = Unit {0}} tt) e (session_over t)).1) where
    ends :
        (m : Exec (Unit {0}))
        → Keeps P m
        → (e : Env) (t : Trace) → P (session_over t)
        → P (session_over (m e (session_over t)).1.trace)
    ends m k e t h = restarts _ (k.at e (session_over t) h)

    served-Keeps :
        (a : Arrival) (e : Env) (t : Trace) → P (session_over t) → P (session_over (served a e t))
    unfolding served route
    served-Keeps (client token r) =
        ends _ (Keeps-bind P _ _ (get_current_user-Keeps inv token) (λ u. client_route-Keeps u r))
    served-Keeps (transcribe token id) = ends _ (quiet _ (transcribe-Keeps inv token id))
    served-Keeps (tag token id) = ends _ (quiet _ (tag-Keeps inv token id))
    served-Keeps (uploaded token m) = ends _ (quiet _ (uploaded-Keeps inv token m))
    served-Keeps (local_tagging id) = ends _ (run_local_tagging-Keeps inv id)
    served-Keeps (callback headers) = λ e t h. restarts _ (callbacks headers e t h)

    pub Reaches-Keeps : {t u : Trace} → Reaches t u → P (session_over t) → P (session_over u)
    Reaches-Keeps here h = h
    Reaches-Keeps (next {t} {u} a e r) h = served-Keeps a e u (Reaches-Keeps r h)
