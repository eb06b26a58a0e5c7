-- ===== src/Tagger/Offers.antt =====
-- The ids in the schema of a request to the tagger, and those that the check of its answer takes.
use limon_backend.Base.{
  String, List, ap, [], ◌∷◌, ◌≡◌, refl, arith, ◌==◌, ◌||◌, all, contains, dedupe, map, some,
  if◌then◌else◌, not, eq_iff, Bool-cases, inl, inr,
}
use limon_backend.Settings.{Settings}
use limon_backend.Runtime.Errors.{ok, err, tagger_response}
use limon_backend.Runtime.Wire.{
  Body, Payload, json_body, Json, object, array, text, Members, end, member, Items, last, item,
}
use limon_backend.Tagger.{invented, parse_completion}
use limon_backend.Tagger.Prompt.{
  prepare, prompt_body, schema, texts, insert_text, sorted_once, tag_id,
}

contains-insert_text :
    (id a : String) (bs : List String)
    → contains id (insert_text a bs) ≡ ((a == id) || contains id bs)
unfolding insert_text
contains-insert_text id a [] = refl
contains-insert_text id a (b ∷ bs) = ground (arith, contains-insert_text id a bs, eq_iff a b)

contains-sorted_once :
    (id : String) (xs : List String) → contains id (sorted_once xs) ≡ contains id xs
unfolding sorted_once
contains-sorted_once id [] = refl
contains-sorted_once id (x ∷ xs) =
    ground (arith, contains-insert_text id x (sorted_once xs), contains-sorted_once id xs)

-- A member of a JSON object, or null.
abbrev member_of : String → Members → Json
member_of name end = object end
member_of name (member n value more) = if n == name then value else member_of name more

abbrev at : String → Json → Json
at name (object ms) = member_of name ms
at name _ = object end

-- The texts of a JSON array.
abbrev item_texts : Items → List String
item_texts last = []
item_texts (item (text t) more) = t ∷ item_texts more
item_texts (item _ more) = item_texts more

abbrev array_texts : Json → List String
array_texts (array xs) = item_texts xs
array_texts _ = []

-- The texts that the JSON schema in a request's body lists for the items of `tag_ids`.
abbrev pub enum_of : Payload → List String
enum_of (json_body body) = array_texts (
    at "enum" (
      at "items" (
        at "tag_ids"
          (at "properties" (at "schema" (at "json_schema" (at "response_format" body)))))))
enum_of _ = []

item_texts-texts : (ids : List String) → item_texts (texts ids) ≡ ids
item_texts-texts [] = refl
item_texts-texts (id ∷ ids) = ap (λ r. id ∷ r) (item_texts-texts ids)

module _ (settings : Settings) (api_key entry : String) (tags : List (String × String)) where
  -- The texts that the request's schema allows.
  abbrev pub allowed : List String
  allowed = enum_of (prepare settings api_key entry tags).0.payload

  allowed_lem : allowed ≡ sorted_once (map tag_id tags)
  unfolding prepare prompt_body schema
  allowed_lem = item_texts-texts (sorted_once (map tag_id tags))

  offered_lem : (prepare settings api_key entry tags).1 ≡ map tag_id tags
  unfolding prepare
  offered_lem = refl

  invented-allowed :
      (ids : List String)
      → invented (map tag_id tags) ids
        ≡ not (all (λ id. contains id (sorted_once (map tag_id tags))) ids)
  invented-allowed [] = refl
  invented-allowed (id ∷ ids) =
      ground (arith, invented-allowed ids, contains-sorted_once id (map tag_id tags))

  -- The check of an answer agrees with the schema in the request: chosen ids are taken, without
  -- repetition, exactly where each one is among the texts that the schema in the body of the prepared
  -- request lists for the items of `tag_ids`; any other choice is refused.
  pub parse_completion-allowed :
      (ids : List String)
      → parse_completion (prepare settings api_key entry tags).1 (Body.completion (some ids))
        ≡ (if all (λ id. contains id allowed) ids then ok (dedupe ids) else err tagger_response)
  unfolding parse_completion
  parse_completion-allowed ids = rw allowed_lem (
      rw (offered_lem) (
        rw (invented-allowed ids)
          (elim (Bool-cases (all (λ id. contains id (sorted_once (map tag_id tags))) ids)) [
            | inl h ↦ rw h refl
            | inr h ↦ rw h refl
          ])))
