-- ===== src/Scripts/TaggingManual.antt =====
-- scripts/test_tagging_manual.py: one live request to the tagger, and what the script prints of it.
pub mod Known
use limon_backend.Base.{
  String, Option, none, some, List, [], ◌∷◌, ◌==◌, not, is_some, keep, map, join, get_or,
  if◌then◌else◌,
}
use limon_backend.Runtime.World.{Exec, pure, ◌>>=◌}
use limon_backend.Tagger.{suggest_tags}

unfoldable pub sample_text : String
sample_text =
    join
      "\u{5d4}\u{5d9}\u{5d5}\u{5dd} \u{5d4}\u{5ea}\u{5e2}\u{5d5}\u{5e8}\u{5e8}\u{5ea}\u{5d9} \u{5de}\u{5d5}\u{5e7}\u{5d3}\u{5dd} \u{5d5}\u{5d4}\u{5dc}\u{5db}\u{5ea}\u{5d9} \u{5dc}\u{5e8}\u{5d5}\u{5e5} \u{5d1}\u{5e4}\u{5d0}\u{5e8}\u{5e7} \u{5d4}\u{5d9}\u{5e8}\u{5e7}\u{5d5}\u{5df} \u{5d1}\u{5ea}\u{5dc} \u{5d0}\u{5d1}\u{5d9}\u{5d1}. "
      (join
        "\u{5d0}\u{5d7}\u{5e8} \u{5db}\u{5da} \u{5e4}\u{5d2}\u{5e9}\u{5ea}\u{5d9} \u{5d0}\u{5ea} \u{5d0}\u{5de}\u{5d0} \u{5e9}\u{5dc}\u{5d9} \u{5dc}\u{5d0}\u{5e8}\u{5d5}\u{5d7}\u{5ea} \u{5d1}\u{5d5}\u{5e7}\u{5e8}, \u{5d5}\u{5d3}\u{5d9}\u{5d1}\u{5e8}\u{5e0}\u{5d5} \u{5d4}\u{5e8}\u{5d1}\u{5d4} \u{5e2}\u{5dc} \u{5d4}\u{5e2}\u{5d1}\u{5d5}\u{5d3}\u{5d4} \u{5d4}\u{5d7}\u{5d3}\u{5e9}\u{5d4} \u{5e9}\u{5dc}\u{5d9}. "
        "\u{5d4}\u{5e8}\u{5d2}\u{5e9}\u{5ea}\u{5d9} \u{5d3}\u{5d9} \u{5dc}\u{5d7}\u{5d5}\u{5e5} \u{5dc}\u{5e7}\u{5e8}\u{5d0}\u{5ea} \u{5d4}\u{5e4}\u{5d2}\u{5d9}\u{5e9}\u{5d4} \u{5e9}\u{5dc} \u{5d0}\u{5d7}\u{5e8} \u{5d4}\u{5e6}\u{5d4}\u{5e8}\u{5d9}\u{5d9}\u{5dd}, \u{5d0}\u{5d1}\u{5dc} \u{5d1}\u{5e1}\u{5d5}\u{5e4}\u{5d5} \u{5e9}\u{5dc} \u{5d3}\u{5d1}\u{5e8} \u{5d4}\u{5d9}\u{5d0} \u{5d4}\u{5dc}\u{5db}\u{5d4} \u{5d8}\u{5d5}\u{5d1}.")

abbrev pub sample_tags : List (String × String)
sample_tags =
    ("tag-1", "\u{5e1}\u{5e4}\u{5d5}\u{5e8}\u{5d8}")
    ∷ ("tag-2", "\u{5de}\u{5e9}\u{5e4}\u{5d7}\u{5d4}")
    ∷ ("tag-3", "\u{5e2}\u{5d1}\u{5d5}\u{5d3}\u{5d4}")
    ∷ ("tag-4", "\u{5d1}\u{5e8}\u{5d9}\u{5d0}\u{5d5}\u{5ea} \u{5e0}\u{5e4}\u{5e9}\u{5d9}\u{5ea}")
    ∷ ("tag-5", "\u{5d1}\u{5d9}\u{5e9}\u{5d5}\u{5dc}")
    ∷ []

-- `tag_names.get(id)`
abbrev pub name_of : List (String × String) → String → Option String
name_of [] id = none
name_of ((i, name) ∷ tags) id = if i == id then some name else name_of tags id

-- The result's lines: the ids, their names, and the ids that the sample does not have. The error of a
-- failed request is printed and raised again.
pub record Report : Type 0 where
  pub tag_ids : List String
  pub resolved : List String
  pub unknown : List String

unfoldable pub report_of : List String → Report
report_of ids = record {
  tag_ids = ids;
  resolved = map (λ (id : String). get_or (name_of sample_tags id) "???") ids;
  unknown = keep (λ (id : String). not (is_some (name_of sample_tags id))) ids;
}

unfoldable pub main : Exec Report
unfolding report_of sample_text
main = do ids ← suggest_tags sample_text sample_tags; pure (report_of ids)
