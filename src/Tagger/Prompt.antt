-- ===== src/Tagger/Prompt.antt =====
-- `_prepare` of app/services/tagger.py: the request that offers a user's tags for a text.
use limon_backend.Base.{ℕ, String, true, false, List, [], ◌∷◌, map, join, rstrip_slash}
use Prim.Native.Nat.{Ordering}
use Prim.Native.String.{compare}
use limon_backend.Runtime.Wire.{
  Request, post, json_body, Json, object, array, text, integer, real, boolean, Members, end, member,
  Items, last, item,
}
use limon_backend.Settings.{Settings}

abbrev max_completion_tokens : ℕ
max_completion_tokens = 800

unfoldable pub instructions : String
instructions =
    "Select the relevant tags for the Hebrew journal entry.\nUse only tag IDs from the supplied list. Never create or infer another tag ID.\nIf none match, return an empty list. Evaluate the choices carefully before\nanswering. Return only the JSON object required by the supplied schema."

-- A text among texts that are in order, once.
unfoldable pub insert_text : String → List String → List String
insert_text a [] = a ∷ []
insert_text a (b ∷ bs) =
    let rest = insert_text a bs in
    elim (compare a b) [ Ordering.lt ↦ a ∷ b ∷ bs | Ordering.eq ↦ b ∷ bs | Ordering.gt ↦ b ∷ rest ]

-- `sorted(frozenset(ids))`
unfoldable pub sorted_once : List String → List String
unfolding insert_text
sorted_once [] = []
sorted_once (a ∷ xs) = insert_text a (sorted_once xs)

abbrev pub tag_id : String × String → String
tag_id (id, _) = id

abbrev tag_line : String × String → String
tag_line (id, name) = join "- " (join id (join ": " name))

-- `"\n".join(lines)`
unfoldable pub join_lines : List String → String
join_lines [] = ""
join_lines (l ∷ []) = l
join_lines (l ∷ m ∷ ls) = join l (join "\n" (join_lines (m ∷ ls)))

unfoldable pub content : String → List (String × String) → String
unfolding join_lines instructions
content entry tags = join instructions (
    join "\n\nAvailable tags:\n"
      (join (join_lines (map tag_line tags)) (join "\n\nHebrew event text:\n" entry)))

abbrev pub texts : List String → Items
texts [] = last
texts (t ∷ ts) = item (text t) (texts ts)

abbrev one : String → Json → Members
one name value = member name value end

-- `schema`
unfoldable pub schema : List String → Json
schema ids = object (
    member "type" (text "object") (
      member "properties"
        (object (
          one "tag_ids" (
            object (
              member "type" (text "array") (
                one "items"
                  (object (member "type" (text "string") (one "enum" (array (texts ids))))))))))
        (member "required" (array (texts ("tag_ids" ∷ [])))
          (one "additionalProperties" (boolean false)))))

-- `body`
unfoldable pub prompt_body : String → String → List (String × String) → Json
unfolding sorted_once content schema
prompt_body model entry tags = object (
    member "model" (text model) (
      member "messages"
        (array (
          item (object (member "role" (text "user") (one "content" (text (content entry tags)))))
            last))
        (member "response_format"
          (object (
            member "type" (text "json_schema") (
              one "json_schema" (
                object (
                  member "name" (text "tag_selection") (
                    member "schema" (schema (sorted_once (map tag_id tags)))
                      (one "strict" (boolean true))))))))
          (member "reasoning_effort" (text "high") (
            member "reasoning_format" (text "hidden") (
              member "temperature" (real "1.0")
                (one "max_completion_tokens" (integer max_completion_tokens))))))))

-- `_prepare`: the request, and the ids that the answer may name.
unfoldable pub prepare : Settings → String → String → List (String × String) → Request × List String
unfolding prompt_body
prepare settings api_key entry tags = (
  record {
    method = post;
    url = join (rstrip_slash settings.tagger_base_url) "/chat/completions";
    token = api_key;
    payload = json_body (prompt_body settings.tagger_model entry tags);
  },
  map tag_id tags,
)
