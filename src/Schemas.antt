-- ===== src/Schemas.antt =====
-- app/schemas: what the framework makes of a request's JSON object before a route sees it, and
-- which objects it refuses with 422. A member is given by its name or its camelCase alias; the
-- framework has told texts, numbers and lists apart.
pub mod Strip
pub mod Names
pub mod Fits
pub mod Changes
use limon_backend.Base.{
  ℕ, String, Bool, true, false, Option, none, some, List, [], ◌∷◌, ◌==◌, ◌&&◌, leb, count, get_or,
  if◌then◌else◌,
}
use limon_backend.Models.{EventType, text, audio}
use limon_backend.Runtime.Errors.{Result, ok, err, http_error}
use limon_backend.Runtime.World.{fits}
use limon_backend.Events.{EventCreate, EventUpdate}
use limon_backend.Users.{UserUpdate}
use limon_backend.Tags.{TagUpdate, Patch, unset, given}
use limon_backend.Schemas.Strip.{strip}

-- A JSON integer, which may be below zero.
pub data Whole : Type 0 where
  nonnegative below_zero : ℕ → Whole

-- A member that is left out takes its default.
pub record EventBody : Type 0 where
  pub type : Option String
  pub title : Option String
  pub description : Option String
  pub tag_ids : Option (List String)
  pub client_created_at : Option ℕ
  pub client_event_id : Option String
  pub duration_sec : Option Whole

-- `Literal["text", "audio"]`, by default `text`
abbrev event_type : Option String → Option EventType
event_type none = some text
event_type (some s) = if s == "text" then some text else if s == "audio" then some audio else none

-- `Field(ge=0)`
abbrev duration : Option Whole → Option (Option ℕ)
duration none = some none
duration (some (nonnegative n)) = some (some n)
duration (some (below_zero n)) = none

abbrev texts_fit : EventBody → Bool
texts_fit b = fits 200 b.title && fits 2000 b.description && fits 36 b.client_event_id

abbrev event_of : EventBody → Option EventType → Option ℕ → Option (Option ℕ) → Result EventCreate
event_of b (some type) (some created) (some duration) =
    if texts_fit b
    then ok (record {
      type = type;
      title = b.title;
      description = b.description;
      tag_ids = get_or b.tag_ids [];
      client_created_at = created;
      client_event_id = b.client_event_id;
      duration_sec = duration;
    })
    else err (http_error 422)
event_of b _ _ _ = err (http_error 422)

-- `EventCreate`
unfoldable pub read_event_create : EventBody → Result EventCreate
read_event_create b = event_of b (event_type b.type) b.client_created_at (duration b.duration_sec)

abbrev patch_fits : ℕ → Patch (Option String) → Bool
patch_fits n unset = true
patch_fits n (given s) = fits n s

-- `EventUpdate`
unfoldable pub read_event_update : EventUpdate → Result EventUpdate
read_event_update p =
    if patch_fits 200 p.title && patch_fits 2000 p.description then ok p else err (http_error 422)

-- `Field(min_length=1, max_length=100)`, of a name that is stripped first
unfoldable pub read_name : String → Result String
unfolding strip
read_name s =
    let n = strip s in if leb 1 (count n) && leb (count n) 100 then ok n else err (http_error 422)

abbrev with_color : Option String → Result String → Result (String × Option String)
with_color color (ok name) = if fits 32 color then ok (name, color) else err (http_error 422)
with_color color (err x) = err x

abbrev required : Option String → Result String
required none = err (http_error 422)
required (some s) = read_name s

-- `TagCreate`
unfoldable pub read_tag_create : Option String → Option String → Result (String × Option String)
unfolding read_name
read_tag_create name color = with_color color (required name)

abbrev given_name : Result String → Result (Patch (Option String))
given_name (ok s) = ok (given (some s))
given_name (err x) = err x

abbrev read_name_patch : Patch (Option String) → Result (Patch (Option String))
read_name_patch unset = ok unset
read_name_patch (given none) = ok (given none)
read_name_patch (given (some s)) = given_name (read_name s)

abbrev with_color_patch : Patch (Option String) → Result (Patch (Option String)) → Result TagUpdate
with_color_patch color (ok name) =
    if patch_fits 32 color then ok (record { name = name; color = color }) else err (http_error 422)
with_color_patch color (err x) = err x

-- `TagUpdate`
unfoldable pub read_tag_update : TagUpdate → Result TagUpdate
unfolding read_name
read_tag_update p = with_color_patch p.color (read_name_patch p.name)

-- `EmailStr`, which the library of that name checks and normalizes
abbrev read_email :
    (String → Option String) → Patch (Option String) → Option (Patch (Option String))
read_email check unset = some unset
read_email check (given none) = some (given none)
read_email check (given (some s)) = elim (check s) [ none ↦ none | some t ↦ some (given (some t)) ]

abbrev with_email : Patch (Option String) → Option (Patch (Option String)) → Result UserUpdate
with_email name none = err (http_error 422)
with_email name (some email) =
    if patch_fits 200 name
    then ok (record { email = email; display_name = name })
    else err (http_error 422)

-- `UserUpdate`
unfoldable pub read_user_update : (String → Option String) → UserUpdate → Result UserUpdate
read_user_update check p = with_email p.display_name (read_email check p.email)
