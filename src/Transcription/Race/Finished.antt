-- ===== src/Transcription/Race/Finished.antt =====
-- Several sessions that collect the same recording: the conditional update of `_persist_transcript` of
-- app/services/transcription.py.
use limon_backend.Base.{ℕ, ◌+◌, String, true, List, ◌≡◌, arith}
use limon_backend.Models.{Recording, Event, Db}
use limon_backend.Runtime.Errors.{ok}
use limon_backend.Runtime.World.{Env, World, durable, modify, rollback, ◌>>=◌}
use limon_backend.Transcriber.{TranscriptJob}
use limon_backend.Transcription.Rows.{update_recordings}
use limon_backend.Transcription.Collect.{
  CollectionResult, not_done, set_done, claim_done, store_transcript, write_description,
}
use limon_backend.Transcription.Race.{
  Unreleased, rest, claims, finishes, describes, fails, reverts, adds, removes, Free, Free-update,
  Free-delete, Free-add, Free-count, updated-Free, other_row,
}

-- No row of this id is left to finish.
abbrev Finished : String → List Recording → Type 0
Finished id = Free (not_done id)

module _ (id : String) where
  Unreleased-Finished :
      {d d' : Db} → Unreleased id d d' → Finished id d.recordings → Finished id d'.recordings
  unfolding update_recordings write_description
  Unreleased-Finished rest t = t
  Unreleased-Finished (claims other now u) t =
      Unreleased-Finished u (Free-update (not_done id) _ _ _ (λ r q c. ground (arith, c, q)) t)
  Unreleased-Finished (finishes other now u) t =
      Unreleased-Finished u (Free-update (not_done id) _ _ _ (λ r q c. ground (arith, c)) t)
  Unreleased-Finished (describes event text now u) t = Unreleased-Finished u t
  Unreleased-Finished (fails other reason now n u) t =
      Unreleased-Finished u
        (Free-update (not_done id) _ _ _ (λ r q c. ground (arith, c, other_row id other r n q)) t)
  Unreleased-Finished (reverts other now n u) t =
      Unreleased-Finished u
        (Free-update (not_done id) _ _ _ (λ r q c. ground (arith, c, other_row id other r n q)) t)
  Unreleased-Finished (adds r h u) t =
      Unreleased-Finished u (Free-add (not_done id) r _ (ground (arith, h)) t)
  Unreleased-Finished (removes p u) t = Unreleased-Finished u (Free-delete (not_done id) p _ t)

-- Two drains of one recording. After a session finished it, other sessions changed the stored rows by
-- any statements of theirs of which none released the recording, by failing it or by
-- reverting it to pending. A session that read the recording's
-- event before all of this, and whose conditional update sees the rows as they are now, writes no
-- transcript, whatever the job's text: it commits nothing, sends nothing, counts the job as skipped,
-- and answers that it may be acknowledged.
pub store_transcript_lost :
    (job : TranscriptJob) (result : CollectionResult) (event : Event) (d d' : Db) (now : ℕ)
    (e : Env) (w : World)
    → Unreleased job.job_id (update_recordings (not_done job.job_id) (set_done now) d) d'
    → w.db ≡ d'
    → store_transcript job result event e w ≡ (
      ok (true, record result { skipped = result.skipped + 1 }),
      record w { db = durable w.trace },
    )
unfolding store_transcript claim_done modify rollback update_recordings ◌>>=◌
store_transcript_lost job result event d d' now e w u sees =
    let none_left =
      Unreleased-Finished job.job_id u
        (updated-Free (not_done job.job_id) (set_done now) d.recordings (λ r. ground arith)) in
    ground (arith, sees, Free-count (not_done job.job_id) d'.recordings none_left)
