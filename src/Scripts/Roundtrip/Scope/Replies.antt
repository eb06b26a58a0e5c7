-- ===== src/Scripts/Roundtrip/Scope/Replies.antt =====
-- The pages of a box that keeps to the parameter `ids`, and the ids that they yield.
use limon_backend.Base.{
  ℕ, String, Bool, true, false, Option, List, [], ◌∷◌, ◌≡◌, refl, arith, All, eqb, if◌then◌else◌,
}
use limon_backend.Runtime.Errors.{Result, ok, err}
use limon_backend.Runtime.Ends.{Ends, Ends-bind, Ends-if, Ends-pure, Ends-any}
use limon_backend.Runtime.Wire.{
  Request, get, Reply, Response, response, transport_error, JobPayload, Body, job_query,
}
use limon_backend.Runtime.World.{Env, World, send, lift, ◌>>=◌}
use limon_backend.Transcriber
use limon_backend.Transcriber.{TranscriptJob, DrainPage, ids_param, waiting}
use limon_backend.Transcription.Collect.{CollectionResult, persist, persist_all}
use limon_backend.Scripts.Roundtrip.Scope.{only, Reports, PageReports, HonoursIds}

module _ (id : String) where
  abbrev pub Own : List TranscriptJob → Type 0
  Own jobs = All (λ (j : TranscriptJob). j.job_id ≡ id) jobs

  abbrev OwnResult : Result (List TranscriptJob) → Type 0
  OwnResult (ok jobs) = Own jobs
  OwnResult (err x) = Unit

  abbrev OwnPage : Result DrainPage → Type 0
  OwnPage (ok page) = Own page.jobs
  OwnPage (err x) = Unit

  add-Own :
      (p : JobPayload) (rest : Result (List TranscriptJob))
      → Reports id p
      → OwnResult rest
      → OwnResult (Transcriber.add_job (Transcriber.parse_job p) rest)
  unfolding Transcriber.add_job Transcriber.parse_job
  add-Own p (ok js) same h = rw same (refl, h)
  add-Own p (err x) same h = rw same tt

  parse_jobs-Own :
      (ps : List JobPayload) → All (Reports id) ps → OwnResult (Transcriber.parse_jobs ps)
  unfolding Transcriber.parse_jobs
  parse_jobs-Own [] h = tt
  parse_jobs-Own (p ∷ ps) h = add-Own p (Transcriber.parse_jobs ps) h.0 (parse_jobs-Own ps h.1)

  page_of-Own :
      (done failed : ℕ) (jobs : Result (List TranscriptJob))
      → OwnResult jobs
      → OwnPage (Transcriber.page_of done failed jobs)
  unfolding Transcriber.page_of
  page_of-Own done failed (ok js) h = h
  page_of-Own done failed (err x) h = tt

  body-Own :
      (b : Body) (code : ℕ) (retry : Option String)
      → let r : Response = record { status_code = code; retry_after = retry; body = b } in
        PageReports id (response r) → OwnPage (Transcriber.drain_page r)
  unfolding Transcriber.drain_page
  body-Own (Body.jobs ps done failed) code retry h = page_of-Own done failed _ (parse_jobs-Own ps h)
  body-Own _ code retry h = tt

  lift-Own :
      (r : Result DrainPage) (e : Env) (w : World)
      → OwnPage r
      → Ends (λ page _. Own page.jobs) (λ _ _. Unit) (lift r e w)
  unfolding lift
  lift-Own (ok page) e w h = h
  lift-Own (err x) e w h = tt

  no_value :
      (r : Response) (e : Env) (w : World)
      → Ends
          (λ (page : DrainPage) _. Own page.jobs)
          (λ _ _. Unit)
          (Transcriber.raise_for_status r e w)
  unfolding Transcriber.raise_for_status Transcriber.parse_retry_after ◌>>=◌
  no_value r e w = ground arith

  answered :
      (reply : Reply) (e : Env) (w : World)
      → PageReports id reply
      → Ends
          (λ r _. PageReports id (response r))
          (λ _ _. Unit)
          (lift (Transcriber.answer reply) e w)
  unfolding lift Transcriber.answer
  answered (response r) e w h = h
  answered transport_error e w h = tt

  kept :
      (b : Bool) (job : String) (acks : List String)
      → job ≡ id
      → All (λ i. i ≡ id) acks
      → All (λ i. i ≡ id) (if b then job ∷ acks else acks)
  kept true job acks same h = (same, h)
  kept false job acks same h = h

  -- The page yields its own ids for acknowledgement.
  pub acks-Own :
      (jobs : List TranscriptJob) (result : CollectionResult) (e : Env) (w : World)
      → Own jobs
      → Ends (λ p _. All (λ i. i ≡ id) p.0) (λ _ _. Unit) (persist_all jobs result e w)
  unfolding persist_all
  acks-Own [] result e w h = Ends-pure _ _ ([], result) e w tt
  acks-Own (job ∷ jobs) result e w h =
      Ends-bind _ _ (λ _ _. Unit) (persist job result) _ e w (Ends-any _)
        λ p w' _.
          Ends-bind _ _ (λ q _. All (λ i. i ≡ id) q.0) (persist_all jobs p.1) _ e w'
            (acks-Own jobs p.1 e w' h.1)
            (λ q w'' k. Ends-pure _ _ _ e w'' (kept p.0 job.job_id q.0 h.0 k))

  module _ (e : Env) (honours : HonoursIds e id) where
    sent :
        (q : Request) (w : World)
        → q.payload
          ≡ job_query "done,failed" "text" Transcriber.max_list_limit (ids_param (only id))
        → Ends (λ reply _. PageReports id reply) (λ _ _. Unit) (send q e w)
    unfolding send
    sent q w same = honours.filters w.trace q _ _ _ same

    asked :
        (w : World)
        → Ends
            (λ r _. PageReports id (response r))
            (λ _ _. Unit)
            (Transcriber.request get "/jobs"
              (job_query "done,failed" "text" Transcriber.max_list_limit (ids_param (only id)))
              e
              w)
    unfolding Transcriber.request
    asked w =
        Ends-bind _ _ (λ _ _. Unit) Transcriber.config _ e w (Ends-any _)
          λ c w' _.
            Ends-bind _ _ (λ reply _. PageReports id reply) (send _) _ e w' (sent _ w' refl)
              (λ reply w'' h. answered reply e w'' h)

    pub drained :
        (w : World) → Ends (λ page _. Own page.jobs) (λ _ _. Unit) (Transcriber.drain (only id) e w)
    unfolding Transcriber.drain
    drained w =
        Ends-bind _ _ (λ r _. PageReports id (response r)) _ _ e w (asked w)
          λ r w' h.
            Ends-if _ _ (eqb r.status_code 200) _ _ e w'
              (λ _.
                lift-Own (Transcriber.drain_page r) e w'
                  (body-Own r.body r.status_code r.retry_after h))
              (λ _. no_value r e w')
