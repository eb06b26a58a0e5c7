-- ===== src/Scripts/TaggingManual/Known.antt =====
-- The warning of scripts/test_tagging_manual.py about unknown ids.
use limon_backend.Base.{
  String, true, List, [], ◌∷◌, ◌≡◌, refl, arith, not, is_some, keep, map, contains,
}
use limon_backend.Runtime.Triple.{Triple, Triple-pure, Triple-bind}
use limon_backend.Tagger.Answers.{AllOffered, suggest_tags-AllOffered}
use limon_backend.Tagger.Prompt.{tag_id}
use limon_backend.Scripts.TaggingManual.{sample_tags, sample_text, name_of, Report, report_of, main}

named :
    (tags : List (String × String)) (id : String)
    → contains id (map tag_id tags) ≡ true
    → is_some (name_of tags id) ≡ true
named [] id h = absurd (ground (arith, h))
named (t ∷ tags) id h = ground (arith, h, named tags id)

none_unknown :
    (tags : List (String × String)) (ids : List String)
    → AllOffered (map tag_id tags) ids
    → keep (λ (id : String). not (is_some (name_of tags id))) ids ≡ []
none_unknown tags [] h = refl
none_unknown tags (id ∷ ids) h = ground (arith, named tags id h.0, none_unknown tags ids h.1)

-- Whatever the endpoint answers, a run of the script that reports a result reports no unknown id.
pub main-none_unknown : Triple (λ _. Unit) main (λ (r : Report) _. r.unknown ≡ []) (λ _ _. Unit)
unfolding main report_of
main-none_unknown =
    Triple-bind (λ ids _. AllOffered (map tag_id sample_tags) ids)
      (suggest_tags-AllOffered sample_text sample_tags)
      (λ ids. Triple-pure _ (λ w h. none_unknown sample_tags ids h))
