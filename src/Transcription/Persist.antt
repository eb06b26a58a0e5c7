-- ===== src/Transcription/Persist.antt =====
-- Persisting a drained page: what may be acknowledged is settled in the stored rows.
use limon_backend.Base.{
  ℕ, String, Bool, true, false, Option, none, some, List, ◌∷◌, ◌≡◌, refl, arith, ◌==◌, All-map,
  get_or, eqb, Option-cases, inl, inr,
}
use limon_backend.Models.{Recording, Event, Db}
use limon_backend.Models.Table.{find, find-passes, count_where, count_where-pos}
use limon_backend.Runtime.World.{World, Exec, ◌>>=◌, durable, modify, commit_session, rollback}
use limon_backend.Runtime.Keeps.{Keeps, keeps_rules}
use limon_backend.Runtime.Triple.{
  Triple, Triple-pure, Triple-ask, Triple-if, Triple-before, Triple-after, Triple-try, Triple-keeps,
  Triple-bind,
}
use limon_backend.Transcriber.{TranscriptJob, is_done, is_failed}
use limon_backend.Transcription.Rows.{has_id, find_recording}
use limon_backend.Transcription.Settled.{
  Settled, IsSettling, Settled-update, Settled-update_self, waits,
}
use limon_backend.Transcription.Safety.{
  Stored, Good, IsReady, commit-Good, mark_failed-Settles, revert_pending-Settles, found_has_id,
  dispatch_tagging-Keeps,
}
use limon_backend.Transcription.Collect.{
  CollectionResult, persist, persist_found, persist_failure, persist_transcript, store_transcript,
  claim_done, not_done, set_done, write_description, tag_if_untagged, ignore_task_queue_error,
}

-- What a call of `_persist` for an id leaves, by its answer.
abbrev pub Persisted : String → List String → Bool × CollectionResult → World → Type 0
Persisted id ids (true, _) w = Good (id ∷ ids) w
Persisted id ids (false, _) w = Good ids w

abbrev Persists : String → List String → Exec (Bool × CollectionResult) → Type 0
Persists id ids m = Triple (Good ids) m (Persisted id ids) (λ _. Stored ids)

set_done-IsSettling : (now : ℕ) → IsSettling (set_done now)
set_done-IsSettling now = record { same_id = λ r. refl; settles = λ r. refl }

-- Where the conditional update counts no row, there is no row or it is done.
none_to_claim-Settled :
    (id : String) (d : Db) → count_where (not_done id) d.recordings ≡ 0 → Settled d id
unfolding find_recording
none_to_claim-Settled id d zero_rows = elim (Option-cases (find (has_id id) d.recordings)) [
  | inl e ↦ rw e
  | inr (r, e) ↦ rw e (
      ground (
        arith,
        find-passes (has_id id) d.recordings r e,
        count_where-pos (has_id id) (not_done id) d.recordings r e,
      ))
]

waiting_not_done :
    (id : String) (d : Db) (r : Recording)
    → find_recording id d ≡ some r
    → waits (some r) ≡ true
    → not_done id r ≡ true
waiting_not_done id d r e h = ground (arith, found_has_id id d r e)

-- After the conditional update and before the commit.
record Claimed (id : String) (ids : List String) (rowcount : ℕ) (w : World) : Type 0 where
  changed : IsReady ids (id ∷ ids) w
  lost : rowcount ≡ 0 → Settled (durable w.trace) id

module _ (ids : List String) where
  persist_failure-Persists :
      (job : TranscriptJob) (result : CollectionResult)
      → Persists job.job_id ids (persist_failure job result)
  unfolding persist_failure
  persist_failure-Persists job result =
      Triple-if (get_or job.error_code "" == "audio_missing") _ _
        (λ _.
          Triple-bind (λ _. Good (job.job_id ∷ ids)) (revert_pending-Settles ids job.job_id)
            (λ _. Triple-pure _ (λ w h. h)))
        (λ _.
          Triple-bind (λ _. Good (job.job_id ∷ ids)) (mark_failed-Settles ids job.job_id _)
            (λ _. Triple-pure _ (λ w h. h)))

  claim_done-Claimed :
      (id : String) → Triple (Good ids) (claim_done id) (Claimed id ids) (λ _. Stored ids)
  unfolding claim_done modify ◌>>=◌
  claim_done-Claimed id = record {
    at = λ e w h.
        let s = set_done-IsSettling (e.now w.trace) in
        record {
          changed = record {
            so = record { safe = h.so.safe; settled = h.so.settled };
            ready = (
              Settled-update_self (not_done id) _ s w.db id (λ r. waiting_not_done id w.db r),
              All-map _ _ ids (λ i k. Settled-update (not_done id) _ s w.db i (rw h.clean k))
                  h.so.settled,
            );
          };
          lost = λ z. rw (← h.clean) (none_to_claim-Settled id w.db z);
        };
  }

  rollback-Good :
      (id : String) (n : ℕ)
      → n ≡ 0
      → Triple (Claimed id ids n) rollback (λ _. Good (id ∷ ids)) (λ _. Stored ids)
  unfolding rollback
  rollback-Good id n z = record {
    at = λ e w h. record {
      so = record { safe = h.changed.so.safe; settled = (h.lost z, h.changed.so.settled) };
      clean = refl;
    };
  }

  Claimed-commit :
      (id : String) (n : ℕ)
      → Triple (Claimed id ids n) commit_session (λ _. Good (id ∷ ids)) (λ _. Stored ids)
  Claimed-commit id n =
      Triple-before (IsReady ids (id ∷ ids)) (λ w h. h.changed) (commit-Good ids _)

  describe-Claimed :
      (id : String) (n : ℕ) (event text : String) (now : ℕ)
      → Triple
          (Claimed id ids n)
          (modify (write_description event text now))
          (λ _. Claimed id ids n)
          (λ _. Stored ids)
  unfolding modify write_description find_recording
  describe-Claimed id n event text now = record {
    at = λ e w h. record {
      changed = record {
        so = record { safe = h.changed.so.safe; settled = h.changed.so.settled };
        ready = h.changed.ready;
      };
      lost = h.lost;
    };
  }

tag_if_untagged-Keeps :
    (ids : List String) (event : Event) → Keeps (Good ids) (tag_if_untagged event)
unfolding tag_if_untagged ignore_task_queue_error
tag_if_untagged-Keeps ids event = search (keeps_rules, dispatch_tagging-Keeps)

module _ (ids : List String) (job : TranscriptJob) (result : CollectionResult) where
  store_transcript-Persists :
      (event : Event) → Persists job.job_id ids (store_transcript job result event)
  unfolding store_transcript
  store_transcript-Persists event =
      Triple-bind (Claimed job.job_id ids) (claim_done-Claimed ids job.job_id) λ n.
        Triple-if (eqb n 0) _ _
          (λ z.
            Triple-bind (λ _. Good (job.job_id ∷ ids))
              (rollback-Good ids job.job_id n (ground arith)) (λ _. Triple-pure _ (λ w h. h)))
          (λ _.
            Triple-bind (λ _. Claimed job.job_id ids n) (Triple-ask _ (λ e w h. h))
              λ now.
                Triple-bind (λ _. Claimed job.job_id ids n)
                  (describe-Claimed ids job.job_id n event.id _ now)
                  λ _.
                    Triple-bind (λ _. Good (job.job_id ∷ ids)) (Claimed-commit ids job.job_id n)
                      λ _.
                        Triple-bind (λ _. Good (job.job_id ∷ ids)) tagged
                          (λ _. Triple-pure _ (λ w h. h)))
    where
      tagged :
          Triple
            (Good (job.job_id ∷ ids))
            (tag_if_untagged event)
            (λ _. Good (job.job_id ∷ ids))
            (λ _. Stored ids)
      tagged =
          Triple-after _ _ (Triple-keeps (tag_if_untagged-Keeps (job.job_id ∷ ids) event))
            (λ _ w h. h) (λ _ w h. record { safe = h.so.safe; settled = h.so.settled.1 })

  persist_transcript-Persists :
      (event : Option Event) → Persists job.job_id ids (persist_transcript job result event)
  unfolding persist_transcript
  persist_transcript-Persists none =
      Triple-bind (λ _. Good (job.job_id ∷ ids)) (mark_failed-Settles ids job.job_id _)
        (λ _. Triple-pure _ (λ w h. h))
  persist_transcript-Persists (some event) = store_transcript-Persists event

  -- A row that is not there is settled.
  Looked : Option Recording → World → Type 0
  Looked none w = Good (job.job_id ∷ ids) w
  Looked (some r) w = Good ids w

  persist_found-Persists :
      (found : Option Recording)
      → Triple
          (Looked found)
          (persist_found job result found)
          (Persisted job.job_id ids)
          (λ _. Stored ids)
  unfolding persist_found Looked
  persist_found-Persists none = Triple-pure _ (λ w h. h)
  persist_found-Persists (some r) =
      Triple-if (is_failed job) _ _ (λ _. persist_failure-Persists ids job result)
        (λ _.
          Triple-if (is_done job) _ _
            (λ _.
              Triple-bind (λ _. Good ids) (Triple-ask _ (λ e w h. h)) persist_transcript-Persists)
            (λ _. Triple-pure _ (λ w h. h)))

  look :
      (found : Option Recording) (w : World)
      → find_recording job.job_id w.db ≡ found
      → Good ids w
      → Looked found w
  unfolding Looked
  look none w e h = record {
    so = record { safe = h.so.safe; settled = (rw (← h.clean) (rw e), h.so.settled) };
    clean = h.clean;
  }
  look (some r) w e h = h

  roll_back-Good : Triple (Stored ids) rollback (λ _. Good ids) (λ _ _. ⊥)
  unfolding rollback
  roll_back-Good = record {
    at = λ e w h. record { so = record { safe = h.safe; settled = h.settled }; clean = refl };
  }

  -- Run where the session sees the stored rows, no acknowledgement of the trace was unsafe, and some
  -- ids are settled in the stored rows, `_persist` never raises and leaves all of this so; the id of
  -- its job is settled too where it answers that the job may be acknowledged.
  pub persist-Triple : Triple (Good ids) (persist job result) (Persisted job.job_id ids) (λ _ _. ⊥)
  unfolding persist
  persist-Triple =
      Triple-try (λ _. Stored ids)
        (Triple-bind Looked (Triple-ask _ (λ e w h. look _ w refl h)) persist_found-Persists)
        (λ x. Triple-bind (λ _. Good ids) roll_back-Good (λ _. Triple-pure _ (λ w h. h)))
