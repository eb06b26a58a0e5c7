-- ===== src/Examples/Bodies.antt =====
-- Request bodies, and who signs an upload.
use limon_backend.Base.{none, some, [], ◌∷◌, ◌≡◌, refl, count, dedupe, is_space}
use limon_backend.Models.{text}
use limon_backend.Runtime.Errors.{ok}
use limon_backend.Runtime.Ends.{Ends}
use limon_backend.Runtime.World.{start}
use limon_backend.Tags.{unset, given}
use limon_backend.Events.{EventCreate, EventUpdate, create_event}
use limon_backend.Storage.{signing_kwargs}
use limon_backend.Storage.Signing.{SignsAs, Refuses, signing_kwargs-SignsAs}
use limon_backend.Schemas.{
  EventBody, nonnegative, read_event_create, read_event_update, read_tag_create, read_name,
}
use limon_backend.Schemas.Strip.{strip, lstrip, rstrip}
use limon_backend.Schemas.Names.{TakenAs, read_tag_create-TakenAs}
use limon_backend.Schemas.Fits.{StaysFit, create_event-StaysFit}
use limon_backend.Schemas.Changes.{update_event-StaysFit}
use limon_backend.Runtime.Wire.{Body}
use limon_backend.Tagger.{parse_completion}
use limon_backend.Tagger.Prompt.{prepare, sorted_once, prompt_body, schema, insert_text}
use limon_backend.Tagger.Offers.{parse_completion-allowed}
use limon_backend.Routers
use limon_backend.Examples.{env, rows, settings}
use limon_backend.Models.{State}

abbrev body : EventBody
body = record {
  type = none;
  title = some "walk";
  description = none;
  tag_ids = none;
  client_created_at = some 5;
  client_event_id = none;
  duration_sec = some (nonnegative 3);
}

abbrev walk : EventCreate
walk = record {
  type = text;
  title = some "walk";
  description = none;
  tag_ids = [];
  client_created_at = 5;
  client_event_id = none;
  duration_sec = some 3;
}

abbrev renamed : EventUpdate
renamed = record {
  title = given (some "run");
  description = unset;
  occurred_at = unset;
  tag_ids = unset;
}

padded : read_tag_create (some " work ") none ≡ ok ("work", none)
unfolding read_tag_create read_name strip lstrip rstrip is_space count
padded = refl

create_event-StaysFit_example : StaysFit (create_event "u1" walk)
unfolding read_event_create count
create_event-StaysFit_example = create_event-StaysFit body walk "u1" refl

update_event-StaysFit_example : StaysFit (Routers.Events.update_event "u1" "x1" renamed)
unfolding read_event_update count
update_event-StaysFit_example = update_event-StaysFit "u1" "x1" renamed renamed refl

read_tag_create-TakenAs_example :
    TakenAs (some " work ") none (read_tag_create (some " work ") none)
read_tag_create-TakenAs_example = read_tag_create-TakenAs (some " work ") none

signing_kwargs-SignsAs_example :
    Ends
      (λ s _. SignsAs env (start (rows State.done)) s)
      (λ x _. Refuses env (start (rows State.done)) x)
      (signing_kwargs env (start (rows State.done)))
signing_kwargs-SignsAs_example = signing_kwargs-SignsAs env (start (rows State.done))

parse_completion-allowed_example :
    parse_completion
      (prepare settings "key" "a walk" (("t2", "walk") ∷ ("t1", "work") ∷ [])).1
      (Body.completion (some ("t2" ∷ "t2" ∷ [])))
    ≡ ok (dedupe ("t2" ∷ "t2" ∷ []))
unfolding prepare prompt_body schema sorted_once insert_text
parse_completion-allowed_example =
    parse_completion-allowed settings "key" "a walk" (("t2", "walk") ∷ ("t1", "work") ∷ [])
      ("t2" ∷ "t2" ∷ [])
