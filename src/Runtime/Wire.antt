-- ===== src/Runtime/Wire.antt =====
-- The HTTP requests that the program sends, the replies it reads, and the tasks it queues.
use limon_backend.Base.{ℕ, String, Option, Bool, List}

pub data Method : Type 0 where
  get post delete : Method

-- A JSON value; a number with a fraction is kept as its text.
mutual
  pub data Json : Type 0 where
    object : Members → Json
    array : Items → Json
    text real : String → Json
    integer : ℕ → Json
    boolean : Bool → Json

  pub data Members : Type 0 where
    end : Members
    member : String → Json → Members → Members

  pub data Items : Type 0 where
    last : Items
    item : Json → Items → Items

-- What reading an object gives: it is not there, the reading fails, or its bytes.
pub data Fetched : Type 0 where
  no_audio unreadable : Fetched
  audio_bytes : List ℕ → Fetched

-- What a request carries besides its URL and its bearer token.
pub data Payload : Type 0 where
  nothing : Payload
  -- the multipart form of `POST /jobs`: the audio, its file name and content type, and `job_id`
  job_form : List ℕ → String → String → String → Payload
  -- the query of `GET /jobs`: `status`, `include`, `limit` and `ids`
  job_query : String → String → ℕ → Option String → Payload
  -- the JSON body of `POST /jobs/ack`
  job_ids : List String → Payload
  -- the JSON body of the chat completion
  json_body : Json → Payload

pub record Request : Type 0 where
  pub method : Method
  pub url : String
  pub token : String
  pub payload : Payload

-- The members of the box's JSON that the program reads; an absent member is `none`.
pub record JobError : Type 0 where
  pub code : Option String
  pub message : Option String
  pub retryable : Bool

pub record JobPayload : Type 0 where
  pub job_id : Option String
  pub status : Option String
  pub text : Option String
  pub error : Option JobError

pub data Body : Type 0 where
  no_json : Body
  submitted : Option String → Option String → Body
  -- `jobs`, `done_unacked`, `failed_unacked`
  jobs : List JobPayload → ℕ → ℕ → Body
  job : JobPayload → Body
  acked : Body
  -- `choices[0].message.content` parsed against the result schema: `none` where a part is missing
  -- or the text does not validate
  completion : Option (List String) → Body

pub record Response : Type 0 where
  pub status_code : ℕ
  pub retry_after : Option String
  pub body : Body

pub data Reply : Type 0 where
  response : Response → Reply
  transport_error : Reply

-- The body of a Cloud Task: its members `eventId` and `recordId`, where they are texts.
pub record TaskBody : Type 0 where
  pub event_id : Option String
  pub record_id : Option String

pub record Task : Type 0 where
  pub url : String
  pub body : TaskBody
  -- the service account and the audience
  pub oidc_token : Option (String × String)

pub record QueuedTask : Type 0 where
  pub name : String
  pub body : TaskBody

pub data Deletion : Type 0 where
  deleted not_found refused : Deletion

-- Who signs a URL: an account that is impersonated, or the attached one by its email.
pub data Signer : Type 0 where
  impersonated attached : String → Signer
