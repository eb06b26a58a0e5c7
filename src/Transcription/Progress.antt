-- ===== src/Transcription/Progress.antt =====
-- A page of finished and failed jobs, over a database that takes every commit.
use limon_backend.Base.{String, true, false, List, ◌≡◌, ◌||◌, map}
use limon_backend.Models.{Db}
use limon_backend.Runtime.Ends.{Ends}
use limon_backend.Runtime.World.{Env, World, Trace}
use limon_backend.Transcriber.{TranscriptJob, is_done, is_failed}
use limon_backend.Transcription.Collect.{CollectionResult}
use limon_backend.Transcription.Plan.{Applies}
use limon_backend.Transcription.Refines.{Holds}

-- The box has an answer for the job.
abbrev pub IsRipe : TranscriptJob → Type 0
IsRipe job = (is_done job || is_failed job) ≡ true

-- The database takes every commit.
pub record IsReliable (e : Env) : Type 0 where
  pub commits : (t : Trace) → e.commit_fails t ≡ false
  pub wide : e.enforces_lengths ≡ false

abbrev pub ids_of : List TranscriptJob → List String
ids_of jobs = map (λ (j : TranscriptJob). j.job_id) jobs

-- The page with each of its jobs carried out.
abbrev pub AllApplied : Db → List TranscriptJob → List String × CollectionResult → World → Type 0
AllApplied d jobs (acks, _) w =
    (acks ≡ ids_of jobs) × Holds w.db w × Applies d jobs (ids_of jobs) w.db
