-- ===== src/Service.antt =====
-- app/main.py, app/db/session.py and app/dependencies.py: the requests that the service answers, each
-- in a session of its own, and the traces that they lead to.
pub mod Invariants
pub mod Machines
pub mod Accounts
pub mod Content
pub mod Served
pub mod Acknowledged
pub mod Keyed
use limon_backend.Base.{String, Option}
use limon_backend.Models.{User}
use limon_backend.Runtime.World.{Env, World, Exec, Trace, durable, pure, ◌>>=◌, ◌>>◌}
use limon_backend.Auth.{get_current_user}
use limon_backend.Tags.{TagUpdate}
use limon_backend.Events.{EventCreate, EventUpdate}
use limon_backend.Users.{UserUpdate}
use limon_backend.Tagging.Run.{run_local_tagging}
use limon_backend.Routers

-- What a client asks for, with a body that is read and validated.
pub data ClientRequest : Type 0 where
  get_me create_my_demo_data delete_me : ClientRequest
  update_me : UserUpdate → ClientRequest
  create_event : EventCreate → ClientRequest
  get_event delete_event : String → ClientRequest
  update_event : String → EventUpdate → ClientRequest
  create_tag : String → Option String → ClientRequest
  update_tag : String → TagUpdate → ClientRequest
  delete_tag : String → ClientRequest

-- A request to the service. `callback` stands for `/transcripts-ready` and `/transcripts-sweep`, and
-- `local_tagging` for a background task that a request left behind, or for any other at any time.
pub data Arrival : Type 0 where
  client : Option String → ClientRequest → Arrival
  transcribe tag : Option String → String → Arrival
  callback : (String → Option String) → Arrival
  uploaded : Option String → Routers.Internal.PubSubMessage → Arrival
  local_tagging : String → Arrival

-- The route of a client's request, for the user that the token names.
unfoldable pub client_route : User → ClientRequest → Exec (Unit {0})
client_route user get_me = Routers.Users.get_me user >> pure tt
client_route user create_my_demo_data = Routers.Users.create_my_demo_data user >> pure tt
client_route user delete_me = Routers.Users.delete_me user >> pure tt
client_route user (update_me payload) = Routers.Users.update_me user payload >> pure tt
client_route user (create_event payload) = Routers.Events.create_event user.id payload >> pure tt
client_route user (get_event id) = Routers.Events.get_event user.id id >> pure tt
client_route user (delete_event id) = Routers.Events.delete_event user.id id >> pure tt
client_route user (update_event id payload) =
    Routers.Events.update_event user.id id payload >> pure tt
client_route user (create_tag name color) = Routers.Tags.create_tag user.id name color >> pure tt
client_route user (update_tag id payload) = Routers.Tags.update_tag user.id id payload >> pure tt
client_route user (delete_tag id) = Routers.Tags.delete_tag user.id id >> pure tt

unfoldable pub route : Arrival → Exec (Unit {0})
unfolding client_route
route (client token r) = do user ← get_current_user token; client_route user r
route (transcribe token id) = Routers.Internal.transcribe token id >> pure tt
route (tag token id) = Routers.Internal.tag token id >> pure tt
route (callback headers) = Routers.Internal.transcripts_ready headers >> pure tt
route (uploaded token message) = Routers.Internal.uploaded token message >> pure tt
route (local_tagging id) = run_local_tagging id

-- `get_db_session`: a session over the stored rows.
abbrev pub session_over : Trace → World
session_over t = record { db = durable t; trace = t }

-- The trace after a request. What its session did not commit is dropped, whether it returned or not.
unfoldable pub served : Arrival → Env → Trace → Trace
unfolding route
served a e t = (route a e (session_over t)).1.trace

-- The traces that requests, one after another, lead to; what is outside may answer each of them in
-- another way.
pub data Reaches : Trace → Trace → Type 0 where
  here : {t : Trace} → Reaches t t
  next : {t u : Trace} (a : Arrival) (e : Env) → Reaches t u → Reaches t (served a e u)
