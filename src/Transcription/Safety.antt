-- ===== src/Transcription/Safety.antt =====
-- What the calls of collection do to the acknowledgements and to the settled recordings: those that
-- change no row, and those that store a change of rows.
use limon_backend.Base.{ℕ, String, true, Option, some, List, ◌∷◌, ◌≡◌, refl, arith, All, All-map}
use limon_backend.Models.{Recording, Db, State}
use limon_backend.Models.Table.{find-passes}
use limon_backend.Runtime.Errors.{Error, task_queue_not_configured}
use limon_backend.Runtime.Wire.{Payload, Request, Task}
use limon_backend.Runtime.World.{
  World, Exec, ◌>>=◌, create_task, local_tagging, durable, send, modify, commit_session, emit,
}
use limon_backend.Runtime.Keeps.{Keeps, keeps_rules}
use limon_backend.Runtime.Triple.{Triple, Triple-ask, Triple-bind}
use limon_backend.Transcriber
use limon_backend.Transcriber.{
  request, config, answer, TranscriptJob, raise_for_status, parse_retry_after,
}
use limon_backend.TaskQueue
use limon_backend.TaskQueue.Keeps.{enqueue_tagging-Keeps}
use limon_backend.TaskQueue.{create_cloud_task, enqueue_transcription, enqueue_tagging}
use limon_backend.Tagging.Dispatch.{dispatch_tagging, run_locally}
use limon_backend.Transcription.Rows.{
  has_id, set_state, set_failed, find_recording, update_recordings, mark_failed, revert_pending,
}
use limon_backend.Transcription.Settled.{
  Settled, Acknowledges, AckSafe, IsSettling, Settled-update, Settled-update_self,
}

-- The trace is safe, and the named recordings are settled in the stored rows.
pub record Stored (ids : List String) (w : World) : Type 0 where
  pub safe : AckSafe w.trace
  pub settled : All (Settled (durable w.trace)) ids

-- And the session holds no change that is not stored.
pub record Good (ids : List String) (w : World) : Type 0 where
  pub so : Stored ids w
  pub clean : w.db ≡ durable w.trace

-- A call that settles a recording and stores that, or raises.
abbrev pub Settles : {A : Type 0} → String → List String → Exec A → Type 0
Settles id ids m = Triple (Good ids) m (λ _. Good (id ∷ ids)) (λ _. Stored ids)

module _ (ids : List String) where
  -- What may be sent: only settled recordings are acknowledged.
  Allowed : Payload → Type 0
  Allowed p = (w : World) → Good ids w → Acknowledges (durable w.trace) p

  send-Keeps : (q : Request) → Allowed q.payload → Keeps (Good ids) (send q)
  unfolding send durable Allowed
  send-Keeps q a = record {
    at = λ e w h. record {
      so = record { safe = (a w h, h.so.safe); settled = h.so.settled };
      clean = h.clean;
    };
  }

  pub drain-Keeps : (filter : Option (List String)) → Keeps (Good ids) (Transcriber.drain filter)
  unfolding Allowed
  drain-Keeps filter =
      Transcriber.Keeps.drain-Keeps (Good ids) Allowed send-Keeps filter (λ w h. tt)

  pub get_job-Keeps : (id : String) → Keeps (Good ids) (Transcriber.get_job id)
  unfolding Allowed
  get_job-Keeps id = Transcriber.Keeps.get_job-Keeps (Good ids) Allowed send-Keeps id (λ w h. tt)

  pub ack-Keeps : Keeps (Good ids) (Transcriber.ack ids)
  unfolding Allowed
  ack-Keeps = Transcriber.Keeps.ack-Keeps (Good ids) Allowed send-Keeps ids (λ w h. h.so.settled)

  emit_task-Keeps : (t : Task) → Keeps (Good ids) (emit (create_task t))
  unfolding emit durable
  emit_task-Keeps t = record {
    at = λ e w h. record {
      so = record { safe = h.so.safe; settled = h.so.settled };
      clean = h.clean;
    };
  }

  emit_local-Keeps : (id : String) → Keeps (Good ids) (emit (local_tagging id))
  unfolding emit durable
  emit_local-Keeps id = record {
    at = λ e w h. record {
      so = record { safe = h.so.safe; settled = h.so.settled };
      clean = h.clean;
    };
  }

  run_locally-Keeps : (id : String) (x : Error) → Keeps (Good ids) (run_locally id x)
  unfolding run_locally
  run_locally-Keeps id task_queue_not_configured = search (keeps_rules, emit_local-Keeps)
  run_locally-Keeps id _ = search keeps_rules

  pub dispatch_tagging-Keeps : (id : String) → Keeps (Good ids) (dispatch_tagging id)
  unfolding dispatch_tagging
  dispatch_tagging-Keeps id =
      search (keeps_rules, run_locally-Keeps, enqueue_tagging-Keeps (Good ids) emit_task-Keeps)

  pub enqueue_transcription-Keeps : (id : String) → Keeps (Good ids) (enqueue_transcription id)
  enqueue_transcription-Keeps id =
      TaskQueue.Keeps.enqueue_transcription-Keeps (Good ids) emit_task-Keeps id

-- The changes of a recording's row, stored at once.
set_state-IsSettling : (now : ℕ) → IsSettling (set_state State.pending now)
set_state-IsSettling now = record { same_id = λ r. refl; settles = λ r. refl }

set_failed-IsSettling : (reason : String) (now : ℕ) → IsSettling (set_failed reason now)
set_failed-IsSettling reason now = record { same_id = λ r. refl; settles = λ r. refl }

pub found_has_id :
    (id : String) (d : Db) (r : Recording) → find_recording id d ≡ some r → has_id id r ≡ true
unfolding find_recording
found_has_id id d r h = find-passes (has_id id) d.recordings r h

-- Rows that are changed and not stored yet, with these recordings settled among them.
pub record IsReady (ids more : List String) (w : World) : Type 0 where
  pub so : Stored ids w
  pub ready : All (Settled w.db) more

pub commit-Good :
    (ids more : List String)
    → Triple (IsReady ids more) commit_session (λ _. Good more) (λ _. Stored ids)
unfolding commit_session durable
commit-Good ids more = record { at = λ e w h. ground (arith, h.so) }

module _ (ids : List String) where
  -- A change of a recording's row, with the row of an id settled by it.
  update-IsReady :
      (id : String) (f : Recording → Recording)
      → IsSettling f
      → Triple
          (Good ids)
          (modify (update_recordings (has_id id) f))
          (λ _. IsReady ids (id ∷ ids))
          (λ _. Stored ids)
  unfolding modify
  update-IsReady id f s = record {
    at = λ e w h. record {
      so = record { safe = h.so.safe; settled = h.so.settled };
      ready = (
        Settled-update_self (has_id id) f s w.db id (λ r found _. found_has_id id w.db r found),
        All-map _ _ ids (λ i k. Settled-update (has_id id) f s w.db i (rw h.clean k)) h.so.settled,
      );
    };
  }

  update_and_commit-Settles :
      (id : String) (f : Recording → Recording)
      → IsSettling f
      → Settles id ids (modify (update_recordings (has_id id) f) >>= λ _. commit_session)
  update_and_commit-Settles id f s =
      Triple-bind (λ _. IsReady ids (id ∷ ids)) (update-IsReady id f s) (λ _. commit-Good ids _)

  pub mark_failed-Settles : (id reason : String) → Settles id ids (mark_failed id reason)
  unfolding mark_failed
  mark_failed-Settles id reason =
      Triple-bind (λ _. Good ids) (Triple-ask _ (λ e w h. h))
        (λ now. update_and_commit-Settles id _ (set_failed-IsSettling reason now))

  pub revert_pending-Settles : (id : String) → Settles id ids (revert_pending id)
  unfolding revert_pending
  revert_pending-Settles id =
      Triple-bind (λ _. Good ids) (Triple-ask _ (λ e w h. h))
        (λ now. update_and_commit-Settles id _ (set_state-IsSettling now))
