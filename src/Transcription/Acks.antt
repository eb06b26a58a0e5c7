-- ===== src/Transcription/Acks.antt =====
-- Persist, then acknowledge: the loop over the pages, and the whole recovery pass.
use limon_backend.Base.{
  ℕ, zero, suc, String, Bool, true, false, Option, none, List, [], ◌∷◌, ◌++◌, All-left, All-middle,
  null, if◌then◌else◌,
}
use limon_backend.Models.{Recording}
use limon_backend.Runtime.Errors.{Result, ok, err}
use limon_backend.Runtime.Ends.{Ends}
use limon_backend.Runtime.World.{World, Exec, pure, ◌>>=◌}
use limon_backend.Runtime.Keeps.{Keeps, keeps_rules}
use limon_backend.Runtime.Triple.{
  Triple, Triple-pure, Triple-ask, Triple-if, Triple-before, Triple-after, Triple-keeps,
  Triple-bind,
}
use limon_backend.Transcriber.{TranscriptJob}
use limon_backend.Transcription.Settled.{AckSafe}
use limon_backend.Transcription.Safety.{
  Stored, Good, drain-Keeps, ack-Keeps, get_job-Keeps, enqueue_transcription-Keeps,
  revert_pending-Settles,
}
use limon_backend.Transcription.Collect.{
  CollectionResult, no_results, persist_all, collect_page, drain_pages, collect_transcripts,
}
use limon_backend.Transcription.Sweep.{
  enqueue, not_queued, box_has_no_job, skip_unchecked, recover_stuck, recover_all_stuck,
  requeue_all_pending, sweep,
}
use limon_backend.Transcription.Persist.{Persisted, persist-Triple}

abbrev Page : List String → List String × CollectionResult → World → Type 0
Page ids (ackable, _) = Good (ackable ++ ids)

Good-none : {ids : List String} (w : World) → Good ids w → Good [] w
Good-none w h = record { so = record { safe = h.so.safe; settled = tt }; clean = h.clean }

-- Every id that the page yields for acknowledgement is settled in the stored rows.
persist_all-Triple :
    (jobs : List TranscriptJob) (ids : List String) (result : CollectionResult)
    → Triple (Good ids) (persist_all jobs result) (Page ids) (λ _ _. ⊥)
unfolding persist_all
persist_all-Triple [] ids result = Triple-pure _ (λ w h. h)
persist_all-Triple (job ∷ jobs) ids result =
    Triple-bind (Persisted job.job_id ids) (persist-Triple ids job result)
      (go (persist_all-Triple jobs))
  where
    go :
        ((ids : List String) (result : CollectionResult)
          → Triple (Good ids) (persist_all jobs result) (Page ids) (λ _ _. ⊥))
        → (p : Bool × CollectionResult)
        → Triple
            (Persisted job.job_id ids p)
            (persist_all jobs p.1 >>= λ q. pure (if p.0 then job.job_id ∷ q.0 else q.0, q.1))
            (Page ids)
            (λ _ _. ⊥)
    go rec (true, counted) =
        Triple-bind (Page (job.job_id ∷ ids)) (rec (job.job_id ∷ ids) counted) λ q.
          Triple-pure _ (λ w h. record {
            so = record {
              safe = h.so.safe;
              settled = All-middle _ q.0 ids job.job_id h.so.settled;
            };
            clean = h.clean;
          })
    go rec (false, counted) =
        Triple-bind (Page ids) (rec ids counted) (λ q. Triple-pure _ (λ w h. h))

-- From stored rows and a safe trace, a call that ends with both, or raises with a safe trace.
abbrev pub Safely : {A : Type 0} → Exec A → Type 0
Safely m = Triple (Good []) m (λ _. Good []) (λ _. Stored [])

Stored-of_Good : {ids : List String} (w : World) → Good ids w → Stored [] w
Stored-of_Good w h = record { safe = h.so.safe; settled = tt }

pub reads :
    (ids : List String) {A : Type 0} {m : Exec A}
    → Keeps (Good ids) m
    → Triple (Good ids) m (λ _. Good ids) (λ _. Stored [])
reads ids k = Triple-after _ _ (Triple-keeps k) (λ _ w h. h) (λ _ w h. Stored-of_Good w h)

collect_page-Safely :
    (filter : Option (List String)) (result : CollectionResult)
    → Safely (collect_page filter result)
unfolding collect_page
collect_page-Safely filter result =
    Triple-bind (λ _. Good []) (reads [] (drain-Keeps [] filter))
      λ page.
        Triple-if (null page.jobs) _ _ (λ _. Triple-pure _ (λ w h. h))
          (λ _.
            Triple-bind (Page [])
              (Triple-after _ _ (persist_all-Triple page.jobs [] _) (λ _ w h. h)
                (λ _ w h. absurd h))
              λ p.
                Triple-before (Good p.0)
                  (λ w h. record {
                    so = record { safe = h.so.safe; settled = All-left _ p.0 [] h.so.settled };
                    clean = h.clean;
                  })
                  (Triple-if (null p.0) _ _ (λ _. Triple-pure _ (λ w h. Good-none w h))
                    (λ _.
                      Triple-bind (λ _. Good p.0) (reads p.0 (ack-Keeps p.0))
                        (λ _. Triple-pure _ (λ w h. Good-none w h)))))

drain_pages-Safely :
    (rounds : ℕ) (filter : Option (List String)) (result : CollectionResult)
    → Safely (drain_pages rounds filter result)
unfolding drain_pages
drain_pages-Safely zero filter result = Triple-pure _ (λ w h. h)
drain_pages-Safely (suc rounds) filter result =
    Triple-bind (λ _. Good []) (collect_page-Safely filter result)
      λ p.
        Triple-if p.0 _ _ (λ _. drain_pages-Safely rounds filter p.1)
          (λ _. Triple-pure _ (λ w h. h))

pub collect_transcripts-Safely :
    (filter : Option (List String)) → Safely (collect_transcripts filter)
unfolding collect_transcripts
collect_transcripts-Safely filter = drain_pages-Safely _ filter no_results

enqueue-Safely : (id : String) → Safely (enqueue id)
unfolding enqueue not_queued
enqueue-Safely id = reads [] (search (keeps_rules, enqueue_transcription-Keeps))

box_has_no_job-Safely : (id : String) → Safely (box_has_no_job id)
unfolding box_has_no_job skip_unchecked
box_has_no_job-Safely id = reads [] (search (keeps_rules, get_job-Keeps))

recover_stuck-Safely : (r : Recording) (n : ℕ) → Safely (recover_stuck r n)
unfolding recover_stuck
recover_stuck-Safely r n =
    Triple-bind (λ _. Good []) (box_has_no_job-Safely r.id)
      λ gone.
        Triple-if gone _ _
          (λ _.
            Triple-bind (λ _. Good (r.id ∷ [])) (revert_pending-Settles [] r.id)
              λ _. Triple-before (Good []) Good-none (
                Triple-bind (λ _. Good []) (enqueue-Safely r.id)
                  (λ queued. Triple-pure _ (λ w h. h))))
          (λ _. Triple-pure _ (λ w h. h))

recover_all_stuck-Safely : (rs : List Recording) (n : ℕ) → Safely (recover_all_stuck rs n)
unfolding recover_all_stuck
recover_all_stuck-Safely [] n = Triple-pure _ (λ w h. h)
recover_all_stuck-Safely (r ∷ rs) n =
    Triple-bind (λ _. Good []) (recover_stuck-Safely r n) (recover_all_stuck-Safely rs)

requeue_all_pending-Safely : (rs : List Recording) (n : ℕ) → Safely (requeue_all_pending rs n)
unfolding requeue_all_pending
requeue_all_pending-Safely [] n = Triple-pure _ (λ w h. h)
requeue_all_pending-Safely (r ∷ rs) n =
    Triple-bind (λ _. Good []) (enqueue-Safely r.id) (λ queued. requeue_all_pending-Safely rs _)

pub sweep-Safely : Safely sweep
unfolding sweep
sweep-Safely =
    Triple-bind (λ _. Good []) (Triple-ask _ (λ e w h. h))
      λ settings.
        Triple-bind (λ _. Good []) (collect_transcripts-Safely none)
          λ collected.
            Triple-bind (λ _. Good []) (Triple-ask _ (λ e w h. h))
              λ now.
                Triple-bind (λ _. Good []) (Triple-ask _ (λ e w h. h))
                  λ stuck.
                    Triple-bind (λ _. Good []) (recover_all_stuck-Safely stuck 0)
                      λ n.
                        Triple-bind (λ _. Good []) (Triple-ask _ (λ e w h. h))
                          λ stale.
                            Triple-bind (λ _. Good []) (requeue_all_pending-Safely stale 0)
                              λ m. Triple-pure _ (λ w h. h)

pub safe_end :
    {A : Type 0} (r : Result A × World) → Ends (λ _. Good []) (λ _. Stored []) r → AckSafe r.1.trace
safe_end (ok a, w) h = h.so.safe
safe_end (err x, w) h = h.safe
