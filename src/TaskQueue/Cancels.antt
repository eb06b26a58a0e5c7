-- ===== src/TaskQueue/Cancels.antt =====
-- Which queued tasks the deletion of an account cancels.
use limon_backend.Base.{
  ℕ, suc, String, Bool, true, false, length, ap, List, [], ◌∷◌, ◌≡◌, refl, keep, take, Bool-cases,
  inl, inr,
}
use limon_backend.Runtime.Errors.{Result, ok, err, task_queue_error}
use limon_backend.Runtime.Ends.{Ends}
use limon_backend.Runtime.Wire.{QueuedTask, Deletion, deleted, not_found, refused}
use limon_backend.Runtime.World.{
  Env, World, Trace, delete_task, list_tasks, pure, lift, continue, emit, ◌>>=◌, ◌>>◌,
}
use limon_backend.TaskQueue.{
  is_owned_task, delete_queued, deletion_result, cancel_each, cancel_account_tasks, listed,
  has_queue,
}

-- The deletions of these tasks, in order, after a trace.
abbrev pub deletions : List QueuedTask → Trace → Trace
deletions [] t = t
deletions (q ∷ qs) t = deletions qs (delete_task q.name ∷ t)

take-length : (qs : List QueuedTask) → take (length qs) qs ≡ qs
take-length [] = refl
take-length (q ∷ qs) = ap (λ r. q ∷ r) (take-length qs)

module _ (event_ids recording_ids : List String) where
  abbrev pub owned : List QueuedTask → List QueuedTask
  owned ts = keep (λ (q : QueuedTask). is_owned_task event_ids recording_ids q.body) ts

  -- The calls for these tasks, or for the first of them.
  abbrev pub Cancels : List QueuedTask → Trace → Result (Unit {0}) × World → Type 0
  Cancels qs t r =
      Ends (λ _ w. w.trace ≡ deletions qs t)
        (λ x w. (x ≡ task_queue_error) × ((n : ℕ) × (w.trace ≡ deletions (take n qs) t))) r

  deleted_one :
      (q : QueuedTask) (qs : List QueuedTask) (t : Trace) (r : Result (Unit {0}) × World)
      → Cancels qs (delete_task q.name ∷ t) r
      → Cancels (q ∷ qs) t r
  deleted_one q qs t (ok a, w) h = h
  deleted_one q qs t (err x, w) h = (h.0, (suc h.1.0, h.1.1))

  delete_queued-Cancels :
      (q : QueuedTask) (qs ts : List QueuedTask) (e : Env) (w : World) (answer : Deletion)
      → e.deletes_task w.trace q.name ≡ answer
      → Cancels qs (delete_task q.name ∷ w.trace) (
          cancel_each event_ids recording_ids ts e
            (record w { trace = delete_task q.name ∷ w.trace }))
      → Cancels
          (q ∷ qs)
          w.trace
          ((delete_queued q.name >> cancel_each event_ids recording_ids ts) e w)
  unfolding delete_queued deletion_result emit ◌>>=◌
  delete_queued-Cancels q qs ts e w deleted a h = rw a (deleted_one q qs w.trace _ h)
  delete_queued-Cancels q qs ts e w not_found a h = rw a (deleted_one q qs w.trace _ h)
  delete_queued-Cancels q qs ts e w refused a h = rw a (refl, (1, refl))

  cancel_each-Cancels :
      (ts : List QueuedTask) (e : Env) (w : World)
      → Cancels (owned ts) w.trace (cancel_each event_ids recording_ids ts e w)
  unfolding cancel_each
  cancel_each-Cancels [] e w = unfold pure in refl
  cancel_each-Cancels (q ∷ qs) e w =
      let rest = cancel_each-Cancels qs e (record w { trace = delete_task q.name ∷ w.trace }) in
      elim (Bool-cases (is_owned_task event_ids recording_ids q.body)) [
        | inl o ↦ rw o (delete_queued-Cancels q (owned qs) qs e w _ refl rest)
        | inr o ↦ rw o (cancel_each-Cancels qs e w)
      ]

  -- The end of the listing: a listing that failed is an error after the calls for all that it gave.
  listed-Cancels :
      (whole : Bool) (qs : List QueuedTask) (t : Trace) (r : Result (Unit {0}) × World) (e : Env)
      → Cancels qs t r
      → Cancels qs t (continue r.0 (λ _. lift (listed whole)) e r.1)
  unfolding listed lift
  listed-Cancels true qs t (ok a, w) e h = h
  listed-Cancels false qs t (ok a, w) e h = (refl, (length qs, rw (take-length qs) h))
  listed-Cancels whole qs t (err x, w) e h = h

  -- The cancellation of an account's tasks deletes only tasks whose body names an id of the
  -- account: where it returns, it asked the queue to delete each listed task of that kind, in
  -- order, and nothing else; where it raises, a TaskQueueError, it did so for the first of them.
  pub cancel_account_tasks-Cancels :
      (ts : List QueuedTask) (whole : Bool) (e : Env) (w : World)
      → has_queue e.settings ≡ true
      → e.tasks w.trace ≡ (ts, whole)
      → Cancels (owned ts) (list_tasks ∷ w.trace) (cancel_account_tasks event_ids recording_ids e w)
  unfolding cancel_account_tasks emit ◌>>=◌
  cancel_account_tasks-Cancels ts whole e w set l = rw set (
      rw l (
        listed-Cancels whole (owned ts) _ _ e
          (cancel_each-Cancels ts e (record w { trace = list_tasks ∷ w.trace }))))
