-- ===== src/Tagger.antt =====
-- app/services/tagger.py: the client that asks a model to choose among a user's tags.
pub mod Prompt
pub mod Offers
pub mod Answers
use limon_backend.Base.{
  String, Bool, Option, none, some, List, [], not, any, contains, dedupe, map, null, truthy,
  text_or, eqb, join, rstrip_slash, if◌then◌else◌,
}
use limon_backend.Runtime.Errors.{
  PyFloat, Result, ok, err, tagger_not_configured, tagger_unavailable, tagger_response, tagger_busy,
  rate_limited,
}
use limon_backend.Runtime.Wire.{Request, Body, Response, Reply, response, transport_error}
use limon_backend.Runtime.World.{Exec, pure, raise, lift, ask, ◌>>=◌, send, settings_of}
use limon_backend.Tagger.Prompt.{prepare}

-- `_parse_retry_after`, of the header's value
unfoldable pub parse_retry_after : Option String → Exec (Option PyFloat)
parse_retry_after none = pure none
parse_retry_after (some value) = ask (λ e _. e.parse_float value)

-- `_raise_for_status`
unfoldable pub raise_for_status : Response → Exec (List String)
raise_for_status r =
    if eqb r.status_code 503
    then (do after ← parse_retry_after r.retry_after; raise (tagger_busy after))
    else if eqb r.status_code 429
    then (do after ← parse_retry_after r.retry_after; raise (rate_limited after))
    else raise tagger_response

-- Some chosen id is not among the offered ones.
abbrev pub invented : List String → List String → Bool
invented offered ids = any (λ id. not (contains id offered)) ids

-- `_parse`: the chosen ids, without repetition.
unfoldable pub parse_completion : List String → Body → Result (List String)
parse_completion offered (Body.completion (some ids)) =
    if invented offered ids then err tagger_response else ok (dedupe ids)
parse_completion offered _ = err tagger_response

unfoldable pub answer : Reply → Result Response
answer (response r) = ok r
answer transport_error = err tagger_unavailable

-- `_send`
unfoldable pub send_prompt : Request → List String → Exec (List String)
unfolding answer
send_prompt q offered = do
  reply ← send q
  r ← lift (answer reply)
  if eqb r.status_code 200 then lift (parse_completion offered r.body) else raise_for_status r

unfoldable pub suggest_tags : String → List (String × String) → Exec (List String)
unfolding prepare
suggest_tags entry existing_tags = if null existing_tags then pure [] else do
  settings ← settings_of
  if truthy settings.tagger_api_key
      then (let (q, offered) =
            prepare settings (text_or settings.tagger_api_key "") entry existing_tags in
          send_prompt q offered)
      else raise tagger_not_configured
