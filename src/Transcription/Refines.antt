-- ===== src/Transcription/Refines.antt =====
-- `_persist` of app/services/transcription.py against its plan, for a job and for a page of jobs.
use limon_backend.Base.{
  ℕ, String, Bool, true, false, Option, none, some, List, [], ◌∷◌, ◌≡◌, refl, arith, any, eqb, not,
}
use limon_backend.Models.{Recording, Event, Db}
use limon_backend.Models.Table.{count_where}
use limon_backend.Runtime.Ends.{Ends}
use limon_backend.Runtime.Triple.{Triple}
use limon_backend.Runtime.World.{
  Env, World, Exec, commit, ◌>>=◌, try, durable, modify, commit_session, rollback,
}
use limon_backend.Transcriber.{TranscriptJob}
use limon_backend.Transcription.Rows.{find_recording, find_event_of, mark_failed, revert_pending}
use limon_backend.Transcription.Collect.{
  CollectionResult, persist, persist_body, persist_found, persist_failure, persist_transcript,
  store_transcript, claim_done, not_done, give_up,
}
use limon_backend.Transcription.Stores.{with_transcript, tagging_harmless}
use limon_backend.Transcription.Plan.{
  Plan, leave, wait, store, plan, plan_for, failure_plan, transcript_plan, acknowledged, rows_after,
  carried_out, apply_job, Applies,
}

count_where-any :
    {A : Type 0} (p : A → Bool) (xs : List A) → eqb (count_where p xs) 0 ≡ not (any p xs)
unfolding count_where
count_where-any p [] = refl
count_where-any p (x ∷ xs) = ground (arith, count_where-any p xs)

module _ (e : Env) (w : World) where
  -- The answer and the stored rows of a plan, in a session that sees the stored rows.
  abbrev pub Follows : Plan → Bool × CollectionResult → World → Type 0
  Follows p (stored, _) w' =
      (stored ≡ acknowledged p e w.trace)
      × (durable w'.trace ≡ rows_after p e w.trace)
      × (w'.db ≡ durable w'.trace)

  module _ (job : TranscriptJob) (result : CollectionResult) (clean : w.db ≡ durable w.trace) where
    abbrev Ended : Plan → Exec (Bool × CollectionResult) → Type 0
    Ended p m = Ends (Follows p) (λ _ _. ⊥) (try m (give_up result) e w)

    failure-Ended : Ended (failure_plan job (e.now w.trace) w.db) (persist_failure job result)
    unfolding persist_failure mark_failed revert_pending modify commit_session give_up rollback try
        ◌>>=◌ durable
    failure-Ended = ground (arith, clean)

    transcript-Ended :
        (linked : Option Event)
        → Ended
            (transcript_plan job (e.now w.trace) w.db linked)
            (persist_transcript job result linked)
    unfolding persist_transcript store_transcript mark_failed claim_done modify commit_session
        give_up rollback try ◌>>=◌ durable
    transcript-Ended none = ground (arith, clean)
    transcript-Ended (some event) =
        let rows = with_transcript job event (e.now w.trace) w.db in
        ground (
          arith,
          clean,
          count_where-any (not_done job.job_id) w.db.recordings,
          tagging_harmless event e (record { db = rows; trace = commit rows ∷ w.trace }),
        )

    found-Ended :
        (found : Option Recording)
        → Ended
            (plan_for job (e.now w.trace) w.db found (find_event_of job.job_id w.db))
            (persist_found job result found)
    unfolding persist_found give_up rollback try ◌>>=◌ durable
    found-Ended none = ground (arith, clean)
    found-Ended (some r) =
        ground (arith, clean, failure-Ended, transcript-Ended (find_event_of job.job_id w.db))

  -- Run where the session sees the stored rows, `_persist` never raises, and does what the plan for
  -- its job over these rows says. It answers that the job may be acknowledged where the plan has
  -- nothing to store, or the database takes the plan's rows; those rows are then stored, all at
  -- once, and otherwise the stored rows are as they were. The session sees the stored rows again.
  pub persist-Follows :
      (job : TranscriptJob) (result : CollectionResult)
      → w.db ≡ durable w.trace
      → Ends (Follows (plan job (e.now w.trace) w.db)) (λ _ _. ⊥) (persist job result e w)
  unfolding persist persist_body plan ◌>>=◌ try
  persist-Follows job result clean = found-Ended job result clean (find_recording job.job_id w.db)

-- The session sees these rows, and they are stored.
abbrev pub Holds : Db → World → Type 0
Holds d w = (w.db ≡ d) × (durable w.trace ≡ d)

-- What became of a job, by whether it may be acknowledged.
abbrev Became : Db → TranscriptJob → Bool → Db → Type 0
Became d job true d' = (now : ℕ) × (d' ≡ apply_job job now d)
Became d job false d' = d' ≡ d

module _ (d : Db) where
  pub Follows-carried :
      (e : Env) (w w' : World) (p : Plan) (stored : Bool) (c : CollectionResult)
      → Holds d w
      → Follows e w p (stored, c) w'
      → Holds w'.db w' × (stored ≡ true → w'.db ≡ carried_out p d) × (stored ≡ false → w'.db ≡ d)
  Follows-carried e w w' leave stored c (sees, kept) h = ground arith
  Follows-carried e w w' wait stored c (sees, kept) h = ground arith
  Follows-carried e w w' (store d') stored c (sees, kept) h = ground arith

abbrev pub PageApplied : Db → List TranscriptJob → List String × CollectionResult → World → Type 0
PageApplied d jobs (acks, _) w = Holds w.db w × Applies d jobs acks w.db
