-- ===== src/Transcription/Invariants/Recovery.antt =====
-- A collection and a recovery pass of app/services/transcription.py, for a condition that their steps
-- keep.
use limon_backend.Base.{ℕ, zero, suc, String, Option, none, List, [], ◌∷◌}
use limon_backend.Models.{Recording}
use limon_backend.Runtime.Wire.{Payload, job_ids, job_query}
use limon_backend.Runtime.World.{World}
use limon_backend.Runtime.Keeps.{Keeps, keeps_rules}
use limon_backend.Transcriber
use limon_backend.Transcriber.{TranscriptJob, max_list_limit, ids_param}
use limon_backend.Transcription.Collect.{
  CollectionResult, collect_page, drain_pages, collect_transcripts,
}
use limon_backend.Transcription.Sweep.{
  skip_unchecked, box_has_no_job, recover_stuck, recover_all_stuck, requeue_all_pending, sweep,
}
use limon_backend.Transcription.Invariants.{
  IsInvariant, revert_pending-Keeps, enqueue-Keeps, persist_all-Keeps,
}

module _ {A : Payload → Type 0} {P : World → Type 0} (inv : IsInvariant A P)
    (acks : (ids : List String) → A (job_ids ids)) (filter : Option (List String))
    (asks : A (job_query "done,failed" "text" max_list_limit (ids_param filter))) where
  open inv use {sends}

  drain-Keeps : Keeps P (Transcriber.drain filter)
  drain-Keeps = Transcriber.Keeps.drain-Keeps P A sends filter asks

  ack-Keeps : (ids : List String) → Keeps P (Transcriber.ack ids)
  ack-Keeps ids = Transcriber.Keeps.ack-Keeps P A sends ids (acks ids)

  collect_page-Keeps : (result : CollectionResult) → Keeps P (collect_page filter result)
  unfolding collect_page
  collect_page-Keeps result =
      search (keeps_rules, drain-Keeps, persist_all-Keeps inv, ack-Keeps) depth 12

  drain_pages-Keeps :
      (rounds : ℕ) (result : CollectionResult) → Keeps P (drain_pages rounds filter result)
  unfolding drain_pages
  drain_pages-Keeps zero result = search keeps_rules
  drain_pages-Keeps (suc rounds) result =
      let rest = drain_pages-Keeps rounds in search (keeps_rules, collect_page-Keeps)

  pub collect_transcripts-Keeps : Keeps P (collect_transcripts filter)
  unfolding collect_transcripts
  collect_transcripts-Keeps = drain_pages-Keeps _ _

module _ {A : Payload → Type 0} {P : World → Type 0} (inv : IsInvariant A P)
    (any_payload : (p : Payload) → A p) where
  open inv use {sends}

  get_job-Keeps : (id : String) → Keeps P (Transcriber.get_job id)
  get_job-Keeps id = Transcriber.Keeps.get_job-Keeps P A sends id (any_payload _)

  box_has_no_job-Keeps : (id : String) → Keeps P (box_has_no_job id)
  unfolding box_has_no_job skip_unchecked
  box_has_no_job-Keeps id = search (keeps_rules, get_job-Keeps)

  recover_all_stuck-Keeps : (rs : List Recording) (n : ℕ) → Keeps P (recover_all_stuck rs n)
  unfolding recover_all_stuck recover_stuck
  recover_all_stuck-Keeps [] n = search keeps_rules
  recover_all_stuck-Keeps (r ∷ rs) n =
      let rest = recover_all_stuck-Keeps rs in
      search (keeps_rules, box_has_no_job-Keeps, revert_pending-Keeps inv, enqueue-Keeps inv) depth
        10

  requeue_all_pending-Keeps : (rs : List Recording) (n : ℕ) → Keeps P (requeue_all_pending rs n)
  unfolding requeue_all_pending
  requeue_all_pending-Keeps [] n = search keeps_rules
  requeue_all_pending-Keeps (r ∷ rs) n =
      let rest = requeue_all_pending-Keeps rs in search (keeps_rules, enqueue-Keeps inv)

  collects : Keeps P (collect_transcripts none)
  collects = collect_transcripts-Keeps inv (λ _. any_payload _) none (any_payload _)

  pub sweep-Keeps : Keeps P sweep
  unfolding sweep
  sweep-Keeps =
      search (keeps_rules, collects, recover_all_stuck-Keeps, requeue_all_pending-Keeps) depth 12
