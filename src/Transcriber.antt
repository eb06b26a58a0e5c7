-- ===== src/Transcriber.antt =====
-- app/services/transcriber.py: the client of the transcriber box's job API.
pub mod Keeps
use limon_backend.Base.{
  ℕ, ◌+◌, String, Bool, true, false, Option, none, some, List, [], ◌∷◌, map, ◌==◌, ◌&&◌, ◌||◌, null,
  length, ltb, eqb, truthy, text_or, get_or, join, rstrip_slash, comma_join, if◌then◌else◌,
}
use limon_backend.Runtime.Errors.{
  Error, PyFloat, Result, ok, err, transcriber_error, transcriber_not_configured,
  endpoint_unavailable, endpoint_busy, audio_rejected, audio_too_large, job_conflict, unauthorized,
  value_error, key_error,
}
use limon_backend.Runtime.Wire.{
  Method, get, post, delete, Payload, nothing, job_form, job_query, job_ids, Request, JobError,
  JobPayload, Body, Response, Reply, response, transport_error,
}
use limon_backend.Runtime.World.{Env, Exec, pure, raise, lift, ask, ◌>>=◌, ◌>>◌, send, settings_of}
use limon_backend.Settings.{Settings}

abbrev pub max_list_limit : ℕ
max_list_limit = 200

-- One job as the box reports it; the segments and the measurements are not read by the program.
pub record TranscriptJob : Type 0 where
  pub job_id : String
  pub status : String
  pub text : Option String
  pub error_code : Option String
  pub error_message : Option String
  pub error_retryable : Bool

abbrev pub is_done : TranscriptJob → Bool
is_done j = j.status == "done"

abbrev pub is_failed : TranscriptJob → Bool
is_failed j = j.status == "failed"

pub record DrainPage : Type 0 where
  pub jobs : List TranscriptJob
  pub done_unacked : ℕ
  pub failed_unacked : ℕ

abbrev pub waiting : DrainPage → ℕ
waiting p = p.done_unacked + p.failed_unacked

pub record SubmitResult : Type 0 where
  pub job_id : String
  pub status : String
  pub already_existed : Bool

-- `_config`: the base URL with no slash at its end, and the token.
unfoldable pub config : Exec (String × String)
config = do
  settings ← settings_of
  if truthy settings.transcriber_base_url && truthy settings.transcriber_token
      then pure (
        rstrip_slash (text_or settings.transcriber_base_url ""),
        text_or settings.transcriber_token "",
      )
      else raise transcriber_not_configured

unfoldable pub answer : Reply → Result Response
answer (response r) = ok r
answer transport_error = err endpoint_unavailable

-- `_request`
unfoldable pub request : Method → String → Payload → Exec Response
request method path payload = do
  (url, token) ← config
  reply ← send (record { method = method; url = join url path; token = token; payload = payload })
  lift (answer reply)

-- `_parse_retry_after`, of the header's value
unfoldable pub parse_retry_after : Option String → Exec (Option PyFloat)
parse_retry_after none = pure none
parse_retry_after (some value) = ask (λ e _. e.parse_float value)

-- `_raise_for_status`
unfoldable pub raise_for_status {ℓ} : {A : Type ℓ} → Response → Exec A
unfolding parse_retry_after
raise_for_status r =
    let code = r.status_code in
    if eqb code 503
    then (do retry_after ← parse_retry_after r.retry_after; raise (endpoint_busy retry_after))
    else if eqb code 401
    then raise unauthorized
    else if eqb code 409
    then raise job_conflict
    else if eqb code 400
    then raise audio_rejected
    else if eqb code 413
    then raise audio_too_large
    else raise transcriber_error

-- What `submit` reads from an accepted reply.
unfoldable pub submit_result : String → Response → Result SubmitResult
submit_result job_id r = elim r.body [
  | Body.submitted id status ↦ ok (record {
    job_id = get_or id job_id;
    status = get_or status "queued";
    already_existed = eqb r.status_code 200;
  })
  | _ ↦ err value_error
]

unfoldable pub submit : String → List ℕ → String → String → Exec SubmitResult
unfolding submit_result
submit job_id audio filename content_type = do
  r ← request post "/jobs" (job_form audio filename content_type job_id)
  if eqb r.status_code 200 || eqb r.status_code 202
      then lift (submit_result job_id r)
      else raise_for_status r

-- `error.get(...)` on an error object, or on `{}` where there is none.
unfoldable pub error_of : Option JobError → JobError
error_of none = record { code = none; message = none; retryable = false }
error_of (some x) = x

-- `_parse_job`; `payload["job_id"]` raises where the member is missing.
unfoldable pub parse_job : JobPayload → Result TranscriptJob
unfolding error_of
parse_job p = elim p.job_id [
  | none ↦ err key_error
  | some id ↦ ok (record {
    job_id = id;
    status = get_or p.status "unknown";
    text = p.text;
    error_code = (error_of p.error).code;
    error_message = (error_of p.error).message;
    error_retryable = (error_of p.error).retryable;
  })
]

unfoldable pub add_job :
    Result TranscriptJob → Result (List TranscriptJob) → Result (List TranscriptJob)
add_job (err x) _ = err x
add_job (ok j) (err x) = err x
add_job (ok j) (ok js) = ok (j ∷ js)

-- `[_parse_job(j) for j in ...]`
unfoldable pub parse_jobs : List JobPayload → Result (List TranscriptJob)
unfolding add_job parse_job
parse_jobs [] = ok []
parse_jobs (p ∷ ps) = add_job (parse_job p) (parse_jobs ps)

unfoldable pub page_of : ℕ → ℕ → Result (List TranscriptJob) → Result DrainPage
page_of done_unacked failed_unacked (err x) = err x
page_of done_unacked failed_unacked (ok js) =
    ok (record { jobs = js; done_unacked = done_unacked; failed_unacked = failed_unacked })

-- What `drain` reads from a 200.
unfoldable pub drain_page : Response → Result DrainPage
unfolding page_of parse_jobs
drain_page r = elim r.body [
  | Body.jobs ps done_unacked failed_unacked ↦ page_of done_unacked failed_unacked (parse_jobs ps)
  | _ ↦ err value_error
]

-- `params["ids"]`, which is left out for no filter and for an empty one
unfoldable pub ids_param : Option (List String) → Option String
ids_param none = none
ids_param (some ids) = if null ids then none else some (comma_join ids)

unfoldable pub drain : Option (List String) → Exec DrainPage
unfolding drain_page ids_param
drain ids = do
  r ← request get "/jobs" (job_query "done,failed" "text" max_list_limit (ids_param ids))
  if eqb r.status_code 200 then lift (drain_page r) else raise_for_status r

-- `response.json()` of a reply whose content is not looked at
unfoldable pub any_json : Body → Result (Unit {0})
any_json Body.no_json = err value_error
any_json _ = ok tt

unfoldable pub ack : List String → Exec (Unit {0})
unfolding any_json
ack ids =
    if null ids then pure tt else if ltb max_list_limit (length ids) then raise value_error else do
      r ← request post "/jobs/ack" (job_ids ids)
      if eqb r.status_code 200 then lift (any_json r.body) else raise_for_status r

unfoldable pub one_job : Response → Result (Option TranscriptJob)
unfolding parse_job
one_job r = elim r.body [
  | Body.job p ↦ elim (parse_job p) [ ok j ↦ ok (some j) | err x ↦ err x ]
  | _ ↦ err value_error
]

unfoldable pub get_job : String → Exec (Option TranscriptJob)
unfolding one_job
get_job job_id = do
  r ← request get (join "/jobs/" job_id) nothing
  if eqb r.status_code 404
      then pure none
      else if eqb r.status_code 200
      then lift (one_job r)
      else raise_for_status r

unfoldable pub discard : String → Exec (Unit {0})
discard job_id = do
  r ← request delete (join "/jobs/" job_id) nothing
  if eqb r.status_code 204 || eqb r.status_code 404 then pure tt else raise_for_status r
