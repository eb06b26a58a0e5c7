-- ===== src/Tagger/Answers.antt =====
-- The ids that `suggest_tags` of app/services/tagger.py returns.
use limon_backend.Base.{
  String, Bool, true, false, Option, none, some, List, ◌≡◌, refl, sym, arith, All, contains, dedupe,
  map, null, eqb, truthy, if◌then◌else◌,
}
use limon_backend.Runtime.Errors.{Result, ok, err, tagger_response}
use limon_backend.Runtime.Wire.{Request, Body, Response}
use limon_backend.Runtime.Triple.{
  Triple, Triple-pure, Triple-raise, Triple-if, Triple-bind, Triple-ask,
}
use limon_backend.Runtime.World.{Exec, lift, send}
use limon_backend.Tagger.{
  answer, parse_retry_after, raise_for_status, parse_completion, invented, send_prompt,
  suggest_tags,
}
use limon_backend.Tagger.Prompt.{prepare, tag_id}
use limon_backend.Tagging.Run.Listed.{All-dedupe, All-not_invented}

-- Nothing is said of the world, nor of an exception.
abbrev Returns : {A : Type 0} → (A → Type 0) → Exec A → Type 0
Returns Q m = Triple (λ _. Unit) m (λ a _. Q a) (λ _ _. Unit)

abbrev pub AllOffered : List String → List String → Type 0
AllOffered offered ids = All (λ id. contains id offered ≡ true) ids

lift-Returns :
    {A : Type 0} (Q : A → Type 0) (r : Result A) → ((a : A) → r ≡ ok a → Q a) → Returns Q (lift r)
unfolding lift
lift-Returns Q (ok a) h = record { at = λ e w u. h a refl }
lift-Returns Q (err x) h = record { at = λ e w u. tt }

send-Returns : (q : Request) → Returns (λ _. Unit) (send q)
unfolding send
send-Returns q = record { at = λ e w u. tt }

retry_after-Returns : (o : Option String) → Returns (λ _. Unit) (parse_retry_after o)
unfolding parse_retry_after
retry_after-Returns none = Triple-pure _ (λ w u. tt)
retry_after-Returns (some value) = Triple-ask _ (λ e w u. tt)

-- An answer that is no success returns no ids.
raise_for_status-Returns :
    (Q : List String → Type 0) (r : Response) → Returns Q (raise_for_status r)
unfolding raise_for_status
raise_for_status-Returns Q r =
    Triple-if (eqb r.status_code 503) _ _
      (λ _.
        Triple-bind (λ _ _. Unit) (retry_after-Returns r.retry_after)
          (λ o. Triple-raise _ (λ w u. tt)))
      λ _.
        Triple-if (eqb r.status_code 429) _ _
          (λ _.
            Triple-bind (λ _ _. Unit) (retry_after-Returns r.retry_after)
              (λ o. Triple-raise _ (λ w u. tt)))
          (λ _. Triple-raise _ (λ w u. tt))

checked :
    (offered ids : List String) (b : Bool) (a : List String)
    → invented offered ids ≡ b
    → (if b then err tagger_response else ok (dedupe ids)) ≡ ok a
    → AllOffered offered a
checked offered ids true a h k = absurd (ground (arith, k))
checked offered ids false a h k =
    let same : dedupe ids ≡ a = ground (arith, k) in
    rw (sym same) (All-dedupe _ ids (All-not_invented _ offered ids (λ id c. c) h))

parse_completion-AllOffered :
    (offered : List String) (b : Body) (a : List String)
    → parse_completion offered b ≡ ok a
    → AllOffered offered a
unfolding parse_completion
parse_completion-AllOffered offered (Body.completion (some ids)) a h =
    checked offered ids (invented offered ids) a refl h
parse_completion-AllOffered offered _ a h = absurd (ground (arith, h))

send_prompt-Returns :
    (q : Request) (offered : List String) → Returns (AllOffered offered) (send_prompt q offered)
unfolding send_prompt
send_prompt-Returns q offered =
    Triple-bind (λ _ _. Unit) (send-Returns q)
      λ reply.
        Triple-bind (λ _ _. Unit) (lift-Returns (λ _. Unit) (answer reply) (λ _ _. tt))
          λ r.
            Triple-if (eqb r.status_code 200) _ _
              (λ _. lift-Returns _ _ (parse_completion-AllOffered offered r.body))
              (λ _. raise_for_status-Returns _ r)

-- The tagger returns ids of offered tags only, whatever the model answers.
pub suggest_tags-AllOffered :
    (entry : String) (tags : List (String × String))
    → Triple
        (λ _. Unit)
        (suggest_tags entry tags)
        (λ ids _. AllOffered (map tag_id tags) ids)
        (λ _ _. Unit)
unfolding suggest_tags prepare
suggest_tags-AllOffered entry tags =
    Triple-if (null tags) _ _ (λ _. Triple-pure _ (λ w u. tt))
      λ _.
        Triple-bind (λ _ _. Unit) (Triple-ask _ (λ e w u. tt))
          λ settings.
            Triple-if (truthy settings.tagger_api_key) _ _
              (λ _. send_prompt-Returns _ (map tag_id tags)) (λ _. Triple-raise _ (λ w u. tt))
