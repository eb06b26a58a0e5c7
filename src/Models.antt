-- ===== src/Models.antt =====
-- app/models/*.py: the rows of the four tables, and the database as their lists. A time is a number
-- of microseconds since the epoch.
pub mod Table
pub mod Keys
use limon_backend.Base.{ℕ, String, Option, List}

-- The text column `type` of an event.
pub data EventType : Type 0 where
  text audio : EventType

-- The text column `state` of a recording.
pub data State : Type 0 where
  pending transcribing done failed : State

pub record User : Type 0 where
  pub id : String
  pub provider : String
  pub email : Option String
  pub display_name : Option String
  pub demo_seeded_at : Option ℕ
  pub created_at : ℕ
  pub updated_at : ℕ

pub record Recording : Type 0 where
  pub id : String
  pub user_id : String
  pub storage_key : String
  pub content_type : String
  pub byte_size : Option ℕ
  pub duration_sec : Option ℕ
  pub state : State
  pub error : Option String
  pub created_at : ℕ
  pub updated_at : ℕ

pub record Event : Type 0 where
  pub id : String
  pub user_id : String
  pub type : EventType
  pub title : Option String
  pub description : Option String
  pub occurred_at : ℕ
  -- a JSON array, or the JSON null that an update may write
  pub tag_ids : Option (List String)
  pub recording_id : Option String
  pub duration_sec : Option ℕ
  pub suggested_location : Option String
  pub tag_reasoning : Option String
  pub client_event_id : Option String
  pub created_at : ℕ
  pub updated_at : ℕ

pub record Tag : Type 0 where
  pub id : String
  pub user_id : String
  pub name : String
  pub color : Option String

pub record Db : Type 0 where
  pub users : List User
  pub events : List Event
  pub recordings : List Recording
  pub tags : List Tag
