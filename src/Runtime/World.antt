-- ===== src/Runtime/World.antt =====
-- The database session and the trace of what has left the process, in a monad of state, exceptions
-- and an environment. app/db/session.py gives a session to each request.
use limon_backend.Base.{
  ℕ, String, Bool, true, Option, none, some, List, [], ◌∷◌, ◌&&◌, not, all, leb, count,
  if◌then◌else◌,
}
use limon_backend.Settings.{Settings}
use limon_backend.Models.{Recording, Event, Db}
use limon_backend.Runtime.Errors.{Error, PyFloat, Result, ok, err, db_error, data_error}
use limon_backend.Runtime.Wire.{Fetched, Request, Reply, Task, QueuedTask, Deletion, Signer}

-- A step that others can observe, the latest at the head of a trace.
pub data Call : Type 0 where
  commit : Db → Call
  http : Request → Call
  create_task : Task → Call
  list_tasks : Call
  delete_task : String → Call
  read_audio : String → Call
  delete_audio : String → Call
  sign_upload : String → Call
  -- tagging that runs in this process, for an event
  local_tagging : String → Call
  -- a pause of this process, in microseconds
  sleep : ℕ → Call

abbrev pub Trace : Type 0
Trace = List Call

-- The claims of an access token that the program reads.
pub record Claims : Type 0 where
  pub sub : Option String
  pub email : Option String
  pub provider : Option String
  pub full_name : Option String
  pub name : Option String

-- Everything outside the program: each answer may depend on all that happened before.
pub record Env : Type 0 where
  pub settings : Settings
  pub now : Trace → ℕ
  -- `uuid.uuid4()`: the n-th one that is drawn after a trace
  pub new_id : Trace → ℕ → String
  pub commit_fails : Trace → Bool
  -- the JWT library: the algorithm that a token names, the key that the project publishes for it,
  -- and the claims of a token that verifies with a key, an algorithm and an audience
  pub token_algorithm : String → Option (Option String)
  pub signing_key : String → String → Option String
  pub verify_token : String → String → String → String → Option Claims
  -- the `name` of the JSON object that a notification's base64 data holds
  pub data_name : String → Option String
  -- PostgreSQL refuses a text that is longer than its column; SQLite does not
  pub enforces_lengths : Bool
  pub http : Trace → Request → Reply
  pub parse_float : String → Option PyFloat
  -- a file under the local directory, and an object of a bucket
  pub file : Trace → String → String → Fetched
  pub blob : Trace → String → String → Fetched
  -- the names under a prefix: of the bucket's objects, where `none` is a listing that fails there,
  -- and of the local directory's files
  pub list_blobs : Trace → String → String → List (Option String)
  pub list_files : Trace → String → String → List String
  pub deletes_audio : Trace → String → Bool
  -- whether a path under the local directory resolves to one outside it
  pub escapes_root : String → String → Bool
  pub dir_exists : Trace → String → Bool
  pub removes_dir : Trace → String → Bool
  -- the database's order of names
  pub collates : String → String → Bool
  -- whether there are default credentials; the email of the refreshed ones, where the refresh
  -- succeeds; and that of the metadata server
  pub default_credentials : Trace → Bool
  pub attached_email : Trace → Option (Option String)
  pub metadata_email : Trace → Option String
  -- a signed URL for a bucket, a key, a content type, a lifetime and a signer
  pub sign : Trace → String → String → String → ℕ → Signer → Option String
  pub creates_task : Trace → Task → Bool
  -- the tasks that a listing of the queue yields, and whether it comes to its end
  pub tasks : Trace → List QueuedTask × Bool
  pub deletes_task : Trace → String → Deletion

pub record World : Type 0 where
  -- what the session's queries see
  pub db : Db
  pub trace : Trace

abbrev pub Exec {ℓ} : Type ℓ → Type ℓ
Exec A = Env → World → Result A × World

module _ {ℓ} {A : Type ℓ} where
  unfoldable pub pure : A → Exec A
  pure a e w = (ok a, w)

  unfoldable pub raise : Error → Exec A
  raise x e w = (err x, w)

  unfoldable pub lift : Result A → Exec A
  lift r e w = (r, w)

  -- a value that the environment and the session give
  unfoldable pub ask : (Env → World → A) → Exec A
  ask f e w = (ok (f e w), w)

module _ {ℓ κ} {A : Type ℓ} {B : Type κ} where
  abbrev pub continue : Result A → (A → Exec B) → Exec B
  continue (ok a) f e w = f a e w
  continue (err x) f e w = (err x, w)

  infixl 10 ◌>>=◌ ◌>>◌
  unfoldable pub ◌>>=◌ : Exec A → (A → Exec B) → Exec B
  unfolding pure raise lift ask
  ◌>>=◌ m f e w = let (r, w') = m e w in continue r f e w'

  abbrev pub ◌>>◌ : Exec A → Exec B → Exec B
  m >> n = m >>= λ _. n

module _ {ℓ} {A : Type ℓ} where
  abbrev pub handle : Result A → (Error → Exec A) → Exec A
  handle (ok a) h e w = (ok a, w)
  handle (err x) h e w = h x e w

  -- `try: m except ...: h`. What was written before the exception stays written.
  unfoldable pub try : Exec A → (Error → Exec A) → Exec A
  try m h e w = let (r, w') = m e w in handle r h e w'

-- A change of the session's rows.
unfoldable pub modify : (Db → Db) → Exec (Unit {0})
modify f e w = (ok tt, record w { db = f w.db })

unfoldable pub emit : Call → Exec (Unit {0})
emit c e w = (ok tt, record w { trace = c ∷ w.trace })

abbrev pub settings_of : Exec Settings
settings_of = ask (λ e w. e.settings)

-- `_utcnow()`
abbrev pub utcnow : Exec ℕ
utcnow = ask (λ e w. e.now w.trace)

abbrev pub empty_db : Db
empty_db = record { users = []; events = []; recordings = []; tags = [] }

-- The rows that the last commit left.
unfoldable pub durable : Trace → Db
durable [] = empty_db
durable (commit db ∷ t) = db
durable (_ ∷ t) = durable t

abbrev pub fits : ℕ → Option String → Bool
fits n none = true
fits n (some s) = leb (count s) n

abbrev pub event_fits : Event → Bool
event_fits x =
    fits 200 x.title
    && fits 2000 x.description
    && fits 36 x.client_event_id
    && fits 200 x.suggested_location
    && fits 2000 x.tag_reasoning

abbrev pub recording_fits : Recording → Bool
recording_fits x = fits 2000 x.error

-- The declared lengths of the text columns that are not checked before they are written.
unfoldable pub columns_fit : Db → Bool
columns_fit d = all event_fits d.events && all recording_fits d.recordings

-- `session.commit()`
unfoldable pub commit_session : Exec (Unit {0})
commit_session e w =
    if e.commit_fails w.trace
    then (err db_error, w)
    else if e.enforces_lengths && not (columns_fit w.db)
    then (err data_error, w)
    else (ok tt, record w { trace = commit w.db ∷ w.trace })

-- `session.rollback()`
unfoldable pub rollback : Exec (Unit {0})
rollback e w = (ok tt, record w { db = durable w.trace })

-- One HTTP request and its reply.
unfoldable pub send : Request → Exec Reply
send q e w = (ok (e.http w.trace q), record w { trace = http q ∷ w.trace })

-- A session at its start, over committed rows.
abbrev pub start : Db → World
start d = record { db = d; trace = commit d ∷ [] }
