-- ===== src/Transcription/Claim.antt =====
-- The atomic claim, and what a whole submission attempt leaves of the recording.
use limon_backend.Base.{
  ℕ, ◌<◌, String, false, Option, none, some, ◌≡◌, refl, ap, eqb, arith, if◌then◌else◌, Bool-cases,
  inl, inr,
}
use limon_backend.Models.{Recording, Db, State}
use limon_backend.Models.Keys.{AreKeyed, count_where-keyed}
use limon_backend.Models.Table.{find-passes, count_where, count_where-pos, find-update_where-some}
use limon_backend.Runtime.World.{
  Env, World, Exec, pure, ask, ◌>>=◌, durable, modify, commit_session,
}
use limon_backend.Runtime.Ends.{Ends}
use limon_backend.Runtime.Triple.{
  Triple, Triple-pure, Triple-ask, Triple-if, Triple-before, Triple-after, Triple-bind,
}
use limon_backend.Transcription.Rows.{
  has_id, find_recording, find_event_of, update_recordings, set_state,
}
use limon_backend.Transcription.Stores.{recording_id}
use limon_backend.Transcription.Attempt.{process_claimed-Resolves}
use limon_backend.Transcription.Outcomes.{state_of, IsIn, Agrees, Surfaces}
use limon_backend.Transcription.Submit.{
  Outcome, noop, outcome, claim, can_claim, claimable, is_done_state, process_claimed,
  claim_and_process, run_found, run_transcription,
}

-- What an attempt leaves, for the row that it read: an attempt on a row that may be claimed ends as
-- its outcome says; any other is a no-op that leaves the row's state.
abbrev pub Explains : String → Option Recording → Outcome → World → Type 0
Explains id none o w = o ≡ outcome noop
Explains id (some r) o w =
    if claimable r.state
    then Agrees id o w
    else (o ≡ outcome noop) × (state_of (find_recording id (durable w.trace)) ≡ some r.state)

module _ (id : String) (r : Recording) where
  -- The session sees the stored rows, and the row of this id is `r`.
  record Sees (w : World) : Type 0 where
    clean : w.db ≡ durable w.trace
    keyed : AreKeyed recording_id w.db.recordings
    found : find_recording id w.db ≡ some r

  Claimed : ℕ → World → Type 0
  Claimed n w =
      if claimable r.state
      then (0 < n) × IsIn State.transcribing id w
      else (n ≡ 0) × (state_of (find_recording id (durable w.trace)) ≡ some r.state)

  claim_count :
      (d : Db)
      → AreKeyed recording_id d.recordings
      → find_recording id d ≡ some r
      → if claimable r.state
        then 0 < count_where (can_claim id) d.recordings
        else count_where (can_claim id) d.recordings ≡ 0
  unfolding find_recording
  claim_count d keyed f = elim (Bool-cases (claimable r.state)) [
    | inl c ↦ rw c (
        count_where-pos (has_id id) (can_claim id) d.recordings r f
          (ground (arith, find-passes (has_id id) d.recordings r f)))
    | inr c ↦ rw c (
        count_where-keyed recording_id (can_claim id) id d.recordings r keyed (λ x p. ground arith)
          f (ground arith))
  ]

  claim_row :
      (d : Db) (now : ℕ)
      → find_recording id d ≡ some r
      → state_of (
          find_recording id (update_recordings (can_claim id) (set_state State.transcribing now) d))
        ≡ some (if claimable r.state then State.transcribing else r.state)
  unfolding find_recording update_recordings
  claim_row d now f =
      rw
        (find-update_where-some (has_id id) (can_claim id) (set_state State.transcribing now)
          d.recordings r (λ x. refl) f)
        (ground (arith, find-passes (has_id id) d.recordings r f))

  claim-Claimed : Triple Sees (claim id) Claimed Surfaces
  unfolding claim Claimed modify commit_session durable ◌>>=◌
  claim-Claimed = record {
    at = λ e w h.
        ground (arith, claim_count w.db h.keyed h.found, claim_row w.db (e.now w.trace) h.found);
  }

  process : Exec Outcome
  process = do event ← ask (λ _ w. find_event_of id w.db); process_claimed id r event

  process-Agrees : Triple (IsIn State.transcribing id) process (Agrees id) Surfaces
  unfolding process
  process-Agrees =
      Triple-bind (λ _. IsIn State.transcribing id) (Triple-ask _ (λ e w h. h))
        (process_claimed-Resolves id r)

  processed : (n : ℕ) → eqb n 0 ≡ false → Triple (Claimed n) process (Explains id (some r)) Surfaces
  unfolding Claimed
  processed n nz = elim (Bool-cases (claimable r.state)) [
    | inl c ↦
        Triple-before (IsIn State.transcribing id) (λ w h. ground arith)
          (Triple-after (Agrees id) Surfaces process-Agrees (λ o w h. ground arith) (λ x w h. h))
    | inr c ↦ record { at = λ e w h. absurd (ground arith) }
  ]

  claim_and_process-Explains : Triple Sees (claim_and_process id r) (Explains id (some r)) Surfaces
  unfolding claim_and_process Claimed process
  claim_and_process-Explains =
      Triple-bind Claimed claim-Claimed λ n.
        Triple-if (eqb n 0) _ _ (λ z. Triple-pure _ (λ w h. ground arith)) (λ nz. processed n nz)

  run_found-Explains : Triple Sees (run_found id (some r)) (Explains id (some r)) Surfaces
  unfolding run_found
  run_found-Explains =
      Triple-if (is_done_state r.state) _ _
        (λ d.
          Triple-pure _ (λ w h.
            ground (arith, ap (λ (x : Db). state_of (find_recording id x)) h.clean, h.found)))
        (λ _. claim_and_process-Explains)

found-Explains :
    (id : String) (found : Option Recording) (e : Env) (w : World)
    → w.db ≡ durable w.trace
    → AreKeyed recording_id w.db.recordings
    → find_recording id w.db ≡ found
    → Ends (Explains id found) Surfaces (run_found id found e w)
unfolding run_found pure
found-Explains id none e w clean keyed f = refl
found-Explains id (some r) e w clean keyed f =
    (run_found-Explains id r).at e w (record { clean = clean; keyed = keyed; found = f })

-- A submission attempt, run where the session sees the stored rows and the ids are keys. If it
-- returns, a missing row gives a no-op; a row that is `pending` or `failed` ends stored as
-- `transcribing` for the outcome submitted, `failed` for failed and `pending` for retry, and no other
-- outcome is given; a row in another state gives a no-op and keeps its state. The only exceptions
-- that it raises are those of a commit that fails or is refused, of a reply that accepts a job and
-- is not the box's JSON, and of audio that is there but cannot be read.
pub run_transcription-Explains :
    (id : String) (e : Env) (w : World)
    → w.db ≡ durable w.trace
    → AreKeyed recording_id w.db.recordings
    → Ends (Explains id (find_recording id w.db)) Surfaces (run_transcription id e w)
unfolding run_transcription ◌>>=◌
run_transcription-Explains id e w clean keyed = found-Explains id _ e w clean keyed refl
