-- ===== src/Scripts/Roundtrip/Scope.antt =====
-- The ids that scripts/transcriber/roundtrip.py names to the box.
pub mod Replies
pub mod Cycle
use limon_backend.Base.{
  ℕ, zero, suc, ◌+◌, String, Bool, true, false, Option, none, some, List, [], ◌∷◌, ◌≡◌, refl, arith,
  truthy, ◌&&◌, All, null, eqb, ltb, if◌then◌else◌,
}
use limon_backend.Models.{Db}
use limon_backend.Runtime.Errors.{Error, Result, ok, err}
use limon_backend.Runtime.Ends.{
  Ends, Ends-bind, Ends-if, Ends-ask, Ends-emit, Ends-pure, Ends-any, Ends-both, Ends-weaken,
}
use limon_backend.Runtime.Keeps.{Keeps, Keeps-Ends, keeps_rules}
use limon_backend.Runtime.Triple.{Triple, Triple-bind, Triple-pure, Triple-after, Triple-before}
use limon_backend.Runtime.Wire.{
  Request, get, Reply, Response, response, transport_error, Payload, JobPayload, Body, job_query,
  job_ids, job_form, nothing,
}
use limon_backend.Runtime.World.{
  Env, World, Exec, Trace, Call, http, commit, sleep, create_task, local_tagging, read_audio, start,
  modify, emit, send, commit_session, rollback, ask, lift, ◌>>=◌,
}
use limon_backend.Transcriber
use limon_backend.Transcriber.{TranscriptJob, DrainPage, ids_param, waiting}
use limon_backend.Transcription.Collect.{
  CollectionResult, persist, persist_all, collect_page, drain_pages, collect_transcripts,
  max_drain_pages, no_results,
}
use limon_backend.Transcription.Submit.{Outcome, run_transcription}
use limon_backend.Transcription.Invariants.{IsInvariant, persist_all-Keeps}
use limon_backend.Transcription.Invariants.Submission.{run_transcription-Keeps}
use limon_backend.Scripts.Roundtrip.{
  Args, Polled, poll, is_ready, report, refresh, seed, cycle, run_clip, main, with_clip, under,
  is_submitted, collected, timed_out, unfinished, throwaway,
}

-- The parameter `ids` of a drain for one id.
abbrev pub only : String → Option (List String)
only id = some (id ∷ [])

-- A submission, a drain and an acknowledgement for this id alone.
abbrev pub Names : String → Payload → Type 0
Names id (job_form _ _ _ job) = job ≡ id
Names id (job_query _ _ _ ids) = ids ≡ ids_param (only id)
Names id (job_ids ids) = All (λ i. i ≡ id) ids
Names id _ = Unit

abbrev pub AllName : String → Trace → Type 0
AllName id [] = Unit
AllName id (http q ∷ t) = Names id q.payload × AllName id t
AllName id (_ ∷ t) = AllName id t

abbrev pub Reports : String → JobPayload → Type 0
Reports id p = p.job_id ≡ some id

abbrev pub PageReports : String → Reply → Type 0
PageReports id (response r) = elim r.body [ Body.jobs ps _ _ ↦ All (Reports id) ps | _ ↦ Unit ]
PageReports id transport_error = Unit

-- The box keeps to the parameter `ids`: a drain for one id yields jobs of that id alone.
pub record HonoursIds (e : Env) (id : String) : Type 0 where
  pub filters :
      (t : Trace) (q : Request) (status include : String) (limit : ℕ)
      → q.payload ≡ job_query status include limit (ids_param (only id))
      → PageReports id (e.http t q)

module _ (id : String) where
  abbrev pub Scoped : World → Type 0
  Scoped w = AllName id w.trace

  abbrev pub Stops : Error → World → Type 0
  Stops x w = Scoped w

  pub send-Keeps : (q : Request) → Names id q.payload → Keeps Scoped (send q)
  unfolding send
  send-Keeps q a = record { at = λ e w h. (a, h) }

  emit-Keeps :
      (c : Call) → ((t : Trace) → AllName id t → AllName id (c ∷ t)) → Keeps Scoped (emit c)
  unfolding emit
  emit-Keeps c same = record { at = λ e w h. same w.trace h }

  modify-Keeps : (f : Db → Db) → Keeps Scoped (modify f)
  unfolding modify
  modify-Keeps f = record { at = λ e w h. h }

  commit-Keeps : Keeps Scoped commit_session
  unfolding commit_session
  commit-Keeps = record { at = λ e w h. ground (arith, h) }

  rollback-Keeps : Keeps Scoped rollback
  unfolding rollback
  rollback-Keeps = record { at = λ e w h. h }

  pub Scoped-IsInvariant : IsInvariant (Names id) Scoped
  Scoped-IsInvariant = record {
    sends = send-Keeps;
    queues = λ t. emit-Keeps (create_task t) (λ _ h. h);
    starts_tagging = λ i. emit-Keeps (local_tagging i) (λ _ h. h);
    reads = λ key. emit-Keeps (read_audio key) (λ _ h. h);
    commits = commit-Keeps;
    rolls_back = rollback-Keeps;
    claims = λ i now. modify-Keeps _;
    finishes = λ i now. modify-Keeps _;
    fails = λ i reason now. modify-Keeps _;
    reverts = λ i now. modify-Keeps _;
    describes = λ i text now. modify-Keeps _;
  }
