-- ===== src/Transcription/Sweep.antt =====
-- `sweep` of app/services/transcription.py: collection, then recovery of stale rows.
pub mod Selection
use limon_backend.Base.{
  ℕ, zero, suc, ◌+◌, String, Bool, true, false, Option, none, some, List, [], ◌∷◌, ◌⊎◌, inl, inr,
  ◌&&◌, ltb, leb, take, keep, length, is_some, if◌then◌else◌,
}
use limon_backend.Settings.{Settings}
use limon_backend.Models.{Recording, Db, State}
use limon_backend.Runtime.Errors.{Error, is_transcriber_error, is_task_queue_error}
use limon_backend.Runtime.World.{Exec, pure, raise, ask, try, ◌>>=◌, ◌>>◌, settings_of, utcnow}
use limon_backend.Transcriber
use limon_backend.TaskQueue.{enqueue_transcription}
use limon_backend.Transcription.Rows.{revert_pending}
use limon_backend.Transcription.Collect.{CollectionResult, collect_transcripts}

pub record Summary : Type 0 where
  pub written : ℕ
  pub failed : ℕ
  pub skipped : ℕ
  pub unknown : ℕ
  pub acked : ℕ
  pub requeued_stuck : ℕ
  pub requeued_pending : ℕ

unfoldable pub insert_by_age : Recording → List Recording → List Recording
insert_by_age r [] = r ∷ []
insert_by_age r (s ∷ rs) =
    if leb r.updated_at s.updated_at then r ∷ s ∷ rs else s ∷ insert_by_age r rs

-- `order_by(Recording.updated_at)`
unfoldable pub order_by_age : List Recording → List Recording
unfolding insert_by_age
order_by_age [] = []
order_by_age (r ∷ rs) = insert_by_age r (order_by_age rs)

-- `Recording.updated_at < now - timedelta(age)`
abbrev pub stale : ℕ → ℕ → Recording → Bool
stale now age r = ltb (r.updated_at + age) now

abbrev pub in_state : State → Recording → Bool
in_state State.pending r = elim r.state [ State.pending ↦ true | _ ↦ false ]
in_state State.transcribing r = elim r.state [ State.transcribing ↦ true | _ ↦ false ]
in_state State.done r = elim r.state [ State.done ↦ true | _ ↦ false ]
in_state State.failed r = elim r.state [ State.failed ↦ true | _ ↦ false ]

-- The stale rows of a state, the oldest first, up to the limit.
unfoldable pub stale_rows : State → ℕ → ℕ → ℕ → Db → List Recording
stale_rows s now age limit d =
    take limit (order_by_age (keep (λ r. in_state s r && stale now age r) d.recordings))

unfoldable pub not_queued : Error → Exec Bool
not_queued x = if is_task_queue_error x then pure false else raise x

-- `_enqueue`
unfoldable pub enqueue : String → Exec Bool
unfolding not_queued
enqueue record_id = try (do enqueue_transcription record_id; pure true) not_queued

-- Whether the box was found to hold no job of this id; an error of the client answers no.
unfoldable pub skip_unchecked : Error → Exec Bool
skip_unchecked x = if is_transcriber_error x then pure false else raise x

unfoldable pub box_has_no_job : String → Exec Bool
unfolding skip_unchecked
box_has_no_job id =
    try (do job ← Transcriber.get_job id; pure (if is_some job then false else true)) skip_unchecked

abbrev add_if : Bool → ℕ → ℕ
add_if b n = if b then n + 1 else n

-- One stuck row: the count of rows requeued so far, and this one.
unfoldable pub recover_stuck : Recording → ℕ → Exec ℕ
recover_stuck r n = do
  gone ← box_has_no_job r.id
  if gone then (do revert_pending r.id; queued ← enqueue r.id; pure (add_if queued n)) else pure n

unfoldable pub recover_all_stuck : List Recording → ℕ → Exec ℕ
recover_all_stuck [] n = pure n
recover_all_stuck (r ∷ rs) n = do m ← recover_stuck r n; recover_all_stuck rs m

unfoldable pub requeue_all_pending : List Recording → ℕ → Exec ℕ
requeue_all_pending [] n = pure n
requeue_all_pending (r ∷ rs) n = do queued ← enqueue r.id; requeue_all_pending rs (add_if queued n)

unfoldable pub sweep : Exec Summary
sweep = do
  settings ← settings_of
  collected ← collect_transcripts none
  now ← utcnow
  let limit = settings.transcriber_recovery_batch_limit
  stuck ← ask (λ _ w.
      stale_rows State.transcribing now settings.transcriber_stale_submitted_hours limit w.db)
  requeued_stuck ← recover_all_stuck stuck 0
  pending ←
      ask
        (λ _ w. stale_rows State.pending now settings.transcriber_stale_pending_minutes limit w.db)
  requeued_pending ← requeue_all_pending pending 0
  pure (record {
    written = collected.written;
    failed = collected.failed;
    skipped = collected.skipped;
    unknown = collected.unknown;
    acked = length collected.acked;
    requeued_stuck = requeued_stuck;
    requeued_pending = requeued_pending;
  })
