-- ===== src/Transcription/Race.antt =====
-- Several sessions at the same recordings: the claim of app/services/transcription.py, with the
-- statements of other sessions between two attempts.
pub mod Finished
use limon_backend.Base.{
  ℕ, String, Bool, true, false, List, [], ◌∷◌, ◌++◌, ◌≡◌, refl, ap, ◌∙◌, arith, ◌==◌, eq_iff, any,
  eqb,
}
use limon_backend.Models.{Recording, Db, State}
use limon_backend.Models.Table.{count_where, update_where, delete_where}
use limon_backend.Runtime.Errors.{Error}
use limon_backend.Runtime.Ends.{Ends}
use limon_backend.Runtime.Triple.{
  Triple, Triple-pure, Triple-ask, Triple-bind, Triple-if, Triple-given,
}
use limon_backend.Runtime.World.{Env, World, Trace, commit, modify, commit_session}
use limon_backend.Events.{add_recording}
use limon_backend.Transcription.Rows.{has_id, update_recordings, set_state, set_failed}
use limon_backend.Transcription.Submit.{noop, outcome, can_claim, claim, claim_and_process}
use limon_backend.Transcription.Collect.{not_done, set_done, write_description}

-- The stored rows, changed by the statements of any number of sessions, one after the other, of which
-- none releases this recording: no session fails it or reverts it.
pub data Unreleased (id : String) : Db → Db → Type 0 where
  rest : {d : Db} → Unreleased id d d
  claims :
      {d d' : Db} (other : String) (now : ℕ)
      → Unreleased id (update_recordings (can_claim other) (set_state State.transcribing now) d) d'
      → Unreleased id d d'
  finishes :
      {d d' : Db} (other : String) (now : ℕ)
      → Unreleased id (update_recordings (not_done other) (set_done now) d) d'
      → Unreleased id d d'
  describes :
      {d d' : Db} (event text : String) (now : ℕ)
      → Unreleased id (write_description event text now d) d'
      → Unreleased id d d'
  fails :
      {d d' : Db} (other reason : String) (now : ℕ)
      → (other == id) ≡ false
      → Unreleased id (update_recordings (has_id other) (set_failed reason now) d) d'
      → Unreleased id d d'
  reverts :
      {d d' : Db} (other : String) (now : ℕ)
      → (other == id) ≡ false
      → Unreleased id (update_recordings (has_id other) (set_state State.pending now) d) d'
      → Unreleased id d d'
  adds :
      {d d' : Db} (r : Recording)
      → has_id id r ≡ false
      → Unreleased id (add_recording r d) d'
      → Unreleased id d d'
  removes :
      {d d' : Db} (p : Recording → Bool)
      → Unreleased id (record d { recordings = delete_where p d.recordings }) d'
      → Unreleased id d d'

-- No row passes a test.
abbrev pub Free : (Recording → Bool) → List Recording → Type 0
Free p rs = any p rs ≡ false

module _ (p : Recording → Bool) where
  -- An update that makes no row pass.
  pub Free-update :
      (q : Recording → Bool) (f : Recording → Recording) (rs : List Recording)
      → ((r : Recording) → q r ≡ true → p (f r) ≡ true → p r ≡ true)
      → Free p rs
      → Free p (update_where q f rs)
  unfolding update_where
  Free-update q f [] h t = refl
  Free-update q f (r ∷ rs) h t = ground (arith, Free-update q f rs h, h r, t)

  pub Free-delete :
      (q : Recording → Bool) (rs : List Recording) → Free p rs → Free p (delete_where q rs)
  unfolding delete_where
  Free-delete q [] t = refl
  Free-delete q (r ∷ rs) t = ground (arith, Free-delete q rs, t)

  pub Free-add :
      (r : Recording) (rs : List Recording) → p r ≡ false → Free p rs → Free p (rs ++ r ∷ [])
  Free-add r [] h t = ground (arith, h)
  Free-add r (x ∷ xs) h t = ground (arith, Free-add r xs h, t)

  pub Free-same :
      (f : Recording → Recording) (rs : List Recording) → Free p rs → update_where p f rs ≡ rs
  unfolding update_where
  Free-same f [] t = refl
  Free-same f (r ∷ rs) t = ground (arith, Free-same f rs, t)

  pub Free-count : (rs : List Recording) → Free p rs → count_where p rs ≡ 0
  unfolding count_where
  Free-count [] t = refl
  Free-count (r ∷ rs) t = ground (arith, Free-count rs, t)

  -- An update of all that pass, after which they do not.
  pub updated-Free :
      (f : Recording → Recording) (rs : List Recording)
      → ((r : Recording) → p (f r) ≡ false)
      → Free p (update_where p f rs)
  unfolding update_where
  updated-Free f [] h = refl
  updated-Free f (r ∷ rs) h = ground (arith, updated-Free f rs h, h r)

pub other_row :
    (id other : String) (r : Recording)
    → (other == id) ≡ false
    → has_id other r ≡ true
    → has_id id r ≡ false
other_row id other r n h = ground (arith, n, h, eq_iff r.id other)

-- No row of this id may be claimed.
abbrev Taken : String → List Recording → Type 0
Taken id = Free (can_claim id)

module _ (id : String) where
  Unreleased-Taken :
      {d d' : Db} → Unreleased id d d' → Taken id d.recordings → Taken id d'.recordings
  unfolding update_recordings write_description
  Unreleased-Taken rest t = t
  Unreleased-Taken (claims other now u) t =
      Unreleased-Taken u (Free-update (can_claim id) _ _ _ (λ r q c. ground (arith, c)) t)
  Unreleased-Taken (finishes other now u) t =
      Unreleased-Taken u (Free-update (can_claim id) _ _ _ (λ r q c. ground (arith, c)) t)
  Unreleased-Taken (describes event text now u) t = Unreleased-Taken u t
  Unreleased-Taken (fails other reason now n u) t =
      Unreleased-Taken u
        (Free-update (can_claim id) _ _ _ (λ r q c. ground (arith, c, other_row id other r n q)) t)
  Unreleased-Taken (reverts other now n u) t =
      Unreleased-Taken u
        (Free-update (can_claim id) _ _ _ (λ r q c. ground (arith, c, other_row id other r n q)) t)
  Unreleased-Taken (adds r h u) t =
      Unreleased-Taken u (Free-add (can_claim id) r _ (ground (arith, h)) t)
  Unreleased-Taken (removes p u) t = Unreleased-Taken u (Free-delete (can_claim id) p _ t)

module _ (id : String) (d : Db) (t : Trace) (taken : Taken id d.recordings) where
  abbrev At : World → Type 0
  At w = (w.db ≡ d) × (w.trace ≡ t)

  abbrev Raised : Error → World → Type 0
  Raised _ w = w.trace ≡ t

  update-At :
      (now : ℕ)
      → Triple At
          (modify (update_recordings (can_claim id) (set_state State.transcribing now)))
          (λ _. At)
          Raised
  unfolding modify update_recordings
  update-At now = record {
    at = λ e w h. (
      ap (update_recordings (can_claim id) (set_state State.transcribing now)) h.0
          ∙ ap (λ rs. record d { recordings = rs })
              (Free-same (can_claim id) (set_state State.transcribing now) d.recordings taken),
      h.1,
    );
  }

  commit-At : Triple At commit_session (λ _ w. w.trace ≡ commit d ∷ t) Raised
  unfolding commit_session
  commit-At = record { at = λ e w h. ground (arith, h.0, h.1) }

  claim-Lost : Triple At (claim id) (λ n w. (w.trace ≡ commit d ∷ t) × (n ≡ 0)) Raised
  unfolding claim
  claim-Lost =
      Triple-bind (λ _. At) (Triple-ask _ (λ e w h. h))
        λ now.
          Triple-bind (λ n w. At w × (n ≡ 0))
            (Triple-ask _ (λ e w h. (h, rw h.0 (Free-count (can_claim id) d.recordings taken))))
            λ n. Triple-given _ λ zero_rows.
              Triple-bind (λ _. At) (update-At now)
                λ _.
                  Triple-bind (λ _ w. w.trace ≡ commit d ∷ t) commit-At
                    λ _. Triple-pure _ (λ w h. (h, zero_rows))

  attempt-Lost :
      (r : Recording)
      → Triple At
          (claim_and_process id r)
          (λ o w. (o ≡ outcome noop) × (w.trace ≡ commit d ∷ t))
          Raised
  unfolding claim_and_process
  attempt-Lost r =
      Triple-bind (λ n w. (w.trace ≡ commit d ∷ t) × (n ≡ 0)) claim-Lost
        λ n. Triple-given _ λ z.
          Triple-if (eqb n 0) _ _ (λ _. Triple-pure _ (λ w h. (refl, h)))
            (λ f. absurd (ground (arith, f, z)))

-- Two attempts at one recording. After a claim of it, other sessions changed the stored rows by any
-- statements of theirs of which none released the recording. An attempt that read the recording
-- before all of this, and sees the rows as they are now, is a no-op where the database takes its
-- commit: it stores the rows unchanged, and nothing else leaves the process. Otherwise it raises,
-- with nothing done.
pub claim_and_process_lost :
    (id : String) (d d' : Db) (now : ℕ) (r : Recording) (e : Env) (w : World)
    → Unreleased id (update_recordings (can_claim id) (set_state State.transcribing now) d) d'
    → w.db ≡ d'
    → Ends
        (λ o w'. (o ≡ outcome noop) × (w'.trace ≡ commit d' ∷ w.trace))
        (λ _ w'. w'.trace ≡ w.trace)
        (claim_and_process id r e w)
unfolding update_recordings
claim_and_process_lost id d d' now r e w u sees =
    (attempt-Lost id d' w.trace
        (Unreleased-Taken id u (updated-Free (can_claim id) _ d.recordings (λ x. ground arith)))
        r).at
      e w (sees, refl)
