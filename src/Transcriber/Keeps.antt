-- ===== src/Transcriber/Keeps.antt =====
-- The client of the box changes no row: it keeps whatever its requests keep.
use limon_backend.Base.{ℕ, String, Option, none, some, List}
use limon_backend.Runtime.Wire.{
  Method, Payload, Request, Response, nothing, job_form, job_query, job_ids,
}
use limon_backend.Runtime.World.{World, send}
use limon_backend.Runtime.Keeps.{Keeps, keeps_rules}
use limon_backend.Transcriber.{
  config, request, parse_retry_after, raise_for_status, submit, drain, ids_param, max_list_limit,
  ack, get_job, discard,
}

module _ (P : World → Type 0) (Allowed : Payload → Type 0)
    (sends : (q : Request) → Allowed q.payload → Keeps P (send q)) where
  request-Keeps :
      (method : Method) (path : String) (payload : Payload)
      → Allowed payload
      → Keeps P (request method path payload)
  unfolding request config
  request-Keeps method path payload a = search (keeps_rules, sends)

  parse_retry_after-Keeps : (o : Option String) → Keeps P (parse_retry_after o)
  unfolding parse_retry_after
  parse_retry_after-Keeps none = search keeps_rules
  parse_retry_after-Keeps (some value) = search keeps_rules

  raise_for_status-Keeps : (A : Type 0) (r : Response) → Keeps P (raise_for_status {A = A} r)
  unfolding raise_for_status
  raise_for_status-Keeps A r = search (keeps_rules, parse_retry_after-Keeps) depth 8

  pub submit-Keeps :
      (id : String) (audio : List ℕ) (filename content_type : String)
      → Allowed (job_form audio filename content_type id)
      → Keeps P (submit id audio filename content_type)
  unfolding submit
  submit-Keeps id audio filename content_type a =
      search (keeps_rules, request-Keeps, raise_for_status-Keeps)

  pub drain-Keeps :
      (filter : Option (List String))
      → Allowed (job_query "done,failed" "text" max_list_limit (ids_param filter))
      → Keeps P (drain filter)
  unfolding drain
  drain-Keeps filter a = search (keeps_rules, request-Keeps, raise_for_status-Keeps)

  pub ack-Keeps : (ids : List String) → Allowed (job_ids ids) → Keeps P (ack ids)
  unfolding ack
  ack-Keeps ids a = search (keeps_rules, request-Keeps, raise_for_status-Keeps)

  pub get_job-Keeps : (id : String) → Allowed nothing → Keeps P (get_job id)
  unfolding get_job
  get_job-Keeps id a = search (keeps_rules, request-Keeps, raise_for_status-Keeps)

  pub discard-Keeps : (id : String) → Allowed nothing → Keeps P (discard id)
  unfolding discard
  discard-Keeps id a = search (keeps_rules, request-Keeps, raise_for_status-Keeps)
