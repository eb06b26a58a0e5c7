-- ===== src/Transcription/Outcomes.antt =====
-- The outcome of a submission attempt, and the state of the recording's row.
use limon_backend.Base.{
  ℕ, String, Bool, true, false, Option, none, some, List, ◌≡◌, refl, ap, inl, inr, arith, ◌==◌,
  Option-cases, join,
}
use limon_backend.Models.{Recording, Db, State}
use limon_backend.Models.Table.{find, find-passes, find-update_where-some}
use limon_backend.Runtime.Errors.{
  Error, PyFloat, transcriber_error, transcriber_not_configured, endpoint_unavailable,
  endpoint_busy, audio_rejected, audio_too_large, job_conflict, unauthorized,
}
use limon_backend.Runtime.Wire.{Request}
use limon_backend.Runtime.World.{
  World, Exec, pure, ◌>>=◌, ◌>>◌, durable, send, emit, read_audio, modify, commit_session,
}
use limon_backend.Runtime.Keeps.{Keeps, keeps_rules}
use limon_backend.Runtime.Triple.{Triple, Triple-pure, Triple-raise, Triple-before, Triple-bind}
use limon_backend.Transcriber
use limon_backend.AudioStorage.{download, download_gcs}
use limon_backend.Transcription.Rows.{
  has_id, find_recording, update_recordings, set_state, set_failed, mark_failed, revert_pending,
}
use limon_backend.Transcription.Raises.{surfaces, of_submission}
use limon_backend.Transcription.Submit.{
  Outcome, Status, noop, submitted, done, failed, retry, fail_with, retry_with, recover_conflict,
  submit_with_conflict_recovery, after_submit_error,
}

abbrev pub is_noop : Status → Bool
is_noop noop = true
is_noop _ = false

-- The stored row of an id is in a state, and the session sees the same row.
abbrev pub state_of : Option Recording → Option State
state_of none = none
state_of (some r) = some r.state

pub record IsIn (s : State) (id : String) (w : World) : Type 0 where
  pub stored : state_of (find_recording id (durable w.trace)) ≡ some s
  pub clean : w.db ≡ durable w.trace

module _ (s : State) (id : String) where
  send-Keeps : (q : Request) → Unit {0} → Keeps (IsIn s id) (send q)
  unfolding send durable
  send-Keeps q _ = record { at = λ e w h. record { stored = h.stored; clean = h.clean } }

  read-Keeps : (key : String) → Keeps (IsIn s id) (emit (read_audio key))
  unfolding emit durable
  read-Keeps key = record { at = λ e w h. record { stored = h.stored; clean = h.clean } }

  pub download-Keeps : (key : String) → Keeps (IsIn s id) (download key)
  unfolding download download_gcs
  download-Keeps key = search (keeps_rules, read-Keeps) depth 8

  submit-Keeps :
      (job : String) (audio : List ℕ) (filename content_type : String)
      → Keeps (IsIn s id) (Transcriber.submit job audio filename content_type)
  submit-Keeps job audio filename content_type =
      Transcriber.Keeps.submit-Keeps (IsIn s id) (λ _. Unit {0}) send-Keeps job audio filename
        content_type tt

  discard-Keeps : (job : String) → Keeps (IsIn s id) (Transcriber.discard job)
  discard-Keeps job = Transcriber.Keeps.discard-Keeps (IsIn s id) (λ _. Unit {0}) send-Keeps job tt

  pub submit_with_conflict_recovery-Keeps :
      (job : String) (audio : List ℕ) (content_type : String)
      → Keeps (IsIn s id) (submit_with_conflict_recovery job audio content_type)
  unfolding submit_with_conflict_recovery recover_conflict
  submit_with_conflict_recovery-Keeps job audio content_type =
      search (keeps_rules, again, submit-Keeps)
    where
      first : Exec (Unit {0})
      first = Transcriber.submit job audio (join job ".m4a") content_type >>= λ _. pure tt

      first-Keeps : Keeps (IsIn s id) (Transcriber.discard job >> first)
      first-Keeps = search (keeps_rules, submit-Keeps, discard-Keeps)

      again :
          (x : Error) → Keeps (IsIn s id) (recover_conflict (Transcriber.discard job >> first) x)
      again job_conflict = first-Keeps
      again _ = search keeps_rules

-- The states that the outcomes of a claimed recording stand for.
abbrev pub leaves : Status → State
leaves submitted = State.transcribing
leaves failed = State.failed
leaves retry = State.pending
leaves done = State.done
leaves noop = State.done

abbrev pub Agrees : String → Outcome → World → Type 0
Agrees id o w = IsIn (leaves o.status) id w × (is_noop o.status ≡ false)

-- The exceptions that leave an attempt.
abbrev pub Surfaces : Error → World → Type 0
Surfaces x w = surfaces x ≡ true

-- A call that ends with an outcome that the stored row agrees with, or raises what nothing catches.
abbrev pub Resolves : State → String → Exec Outcome → Type 0
Resolves s id m = Triple (IsIn s id) m (Agrees id) Surfaces

module _ (s : State) (id : String) where
  updated :
      (f : Recording → Recording) (t : State) (d : Db)
      → ((r : Recording) → (f r).id ≡ r.id)
      → ((r : Recording) → (f r).state ≡ t)
      → state_of (find_recording id d) ≡ some s
      → state_of (find_recording id (update_recordings (has_id id) f d)) ≡ some t
  unfolding find_recording update_recordings
  updated f t d same sets h = elim (Option-cases (find (has_id id) d.recordings)) [
    | inl e ↦ ground arith
    | inr (r, e) ↦
        rw
          (find-update_where-some (has_id id) (has_id id) f d.recordings r
            (λ x. ap (λ i. i == id) (same x)) e)
          (ground (arith, find-passes (has_id id) d.recordings r e, sets r))
  ]

  mark_failed-IsIn :
      (reason : String)
      → Triple (IsIn s id) (mark_failed id reason) (λ _. IsIn State.failed id) Surfaces
  unfolding mark_failed modify commit_session durable ◌>>=◌
  mark_failed-IsIn reason = record {
    at = λ e w h.
        let u =
          updated (set_failed reason (e.now w.trace)) State.failed w.db (λ r. refl) (λ r. refl)
            (rw h.clean h.stored) in
        ground arith;
  }

  revert_pending-IsIn : Triple (IsIn s id) (revert_pending id) (λ _. IsIn State.pending id) Surfaces
  unfolding revert_pending modify commit_session durable ◌>>=◌
  revert_pending-IsIn = record {
    at = λ e w h.
        let u =
          updated (set_state State.pending (e.now w.trace)) State.pending w.db (λ r. refl)
            (λ r. refl) (rw h.clean h.stored) in
        ground arith;
  }

  pub fail_with-Resolves : (reason : String) → Resolves s id (fail_with id reason)
  unfolding fail_with
  fail_with-Resolves reason =
      Triple-bind (λ _. IsIn State.failed id) (mark_failed-IsIn reason)
        (λ _. Triple-pure _ (λ w h. (h, refl)))

  pub retry_with-Resolves : (after : Option PyFloat) → Resolves s id (retry_with id after)
  unfolding retry_with
  retry_with-Resolves after =
      Triple-bind (λ _. IsIn State.pending id) revert_pending-IsIn
        (λ _. Triple-pure _ (λ w h. (h, refl)))

  -- The row is in the state, and the exception is one that a submission can raise.
  unfoldable pub Raised : (Error → Bool) → Error → World → Type 0
  Raised p x w = IsIn s id w × (p x ≡ true)

  after_raise :
      (x : Error) {m : Exec Outcome}
      → Resolves s id m
      → Triple (Raised of_submission x) m (Agrees id) Surfaces
  unfolding Raised
  after_raise x t = Triple-before (IsIn s id) (λ w h. h.0) t

  pub after_submit_error-Resolves :
      (x : Error) → Triple (Raised of_submission x) (after_submit_error id x) (Agrees id) Surfaces
  unfolding after_submit_error Raised
  after_submit_error-Resolves audio_rejected = after_raise audio_rejected (fail_with-Resolves _)
  after_submit_error-Resolves audio_too_large = after_raise audio_too_large (fail_with-Resolves _)
  after_submit_error-Resolves job_conflict = after_raise job_conflict (fail_with-Resolves _)
  after_submit_error-Resolves (endpoint_busy after) =
      after_raise (endpoint_busy after) (retry_with-Resolves after)
  after_submit_error-Resolves unauthorized = after_raise unauthorized (retry_with-Resolves none)
  after_submit_error-Resolves endpoint_unavailable =
      after_raise endpoint_unavailable (retry_with-Resolves none)
  after_submit_error-Resolves transcriber_not_configured =
      after_raise transcriber_not_configured (retry_with-Resolves none)
  after_submit_error-Resolves transcriber_error =
      after_raise transcriber_error (retry_with-Resolves none)
  after_submit_error-Resolves x = Triple-raise _ (λ w h. h.1)
