-- ===== src/Transcription/Drains.antt =====
-- The rounds of `collect_transcripts` of app/services/transcription.py, counted by the pages that
-- are asked for.
use limon_backend.Base.{
  ℕ, zero, suc, ◌+◌, ◌≤◌, String, Bool, true, false, Option, List, [], ◌∷◌, ◌≡◌, refl, ◌∙◌, arith,
  null, if◌then◌else◌,
}
use limon_backend.Models.{Db}
use limon_backend.Runtime.Errors.{Error}
use limon_backend.Runtime.Ends.{Ends, Ends-weaken}
use limon_backend.Runtime.Keeps.{Keeps}
use limon_backend.Runtime.Triple.{
  Triple, Triple-pure, Triple-bind, Triple-if, Triple-after, Triple-before, Triple-keeps,
  Triple-both, Triple-given,
}
use limon_backend.Runtime.Wire.{Payload, job_query, Request}
use limon_backend.Runtime.World.{
  Env, World, Trace, Call, http, create_task, local_tagging, read_audio, ◌>>=◌, try, modify,
  commit_session, rollback, send, emit,
}
use limon_backend.Transcriber
use limon_backend.Transcriber.{TranscriptJob}
use limon_backend.Transcription.Rows.{mark_failed, revert_pending}
use limon_backend.Transcription.Collect.{
  CollectionResult, persist, persist_all, persist_body, persist_found, persist_failure,
  persist_transcript, store_transcript, claim_done, give_up, collect_page, drain_pages,
  collect_transcripts, max_drain_pages, no_results,
}
use limon_backend.Transcription.Invariants.{IsInvariant, persist_all-Keeps}

abbrev is_drain : Payload → Bool
is_drain (job_query _ _ _ _) = true
is_drain _ = false

-- The pages that were asked for.
abbrev pub drains : Trace → ℕ
drains [] = 0
drains (http q ∷ t) = if is_drain q.payload then suc (drains t) else drains t
drains (_ ∷ t) = drains t

abbrev Drained : ℕ → World → Type 0
Drained n w = drains w.trace ≡ n

abbrev NoDrain : Payload → Type 0
NoDrain p = is_drain p ≡ false

module _ (n : ℕ) where
  send-Keeps : (q : Request) → NoDrain q.payload → Keeps (Drained n) (send q)
  unfolding send
  send-Keeps q a = record { at = λ e w h. ground arith }

  modify-Keeps : (f : Db → Db) → Keeps (Drained n) (modify f)
  unfolding modify
  modify-Keeps f = record { at = λ e w h. h }

  emit-Keeps : (c : Call) → ((t : Trace) → drains (c ∷ t) ≡ drains t) → Keeps (Drained n) (emit c)
  unfolding emit
  emit-Keeps c same = record { at = λ e w h. ground (arith, same w.trace) }

  commit-Keeps : Keeps (Drained n) commit_session
  unfolding commit_session
  commit-Keeps = record { at = λ e w h. ground arith }

  rollback-Keeps : Keeps (Drained n) rollback
  unfolding rollback
  rollback-Keeps = record { at = λ e w h. h }

  Drained-IsInvariant : IsInvariant NoDrain (Drained n)
  Drained-IsInvariant = record {
    sends = send-Keeps;
    queues = λ t. emit-Keeps (create_task t) (λ d. refl);
    starts_tagging = λ id. emit-Keeps (local_tagging id) (λ d. refl);
    reads = λ key. emit-Keeps (read_audio key) (λ d. refl);
    commits = commit-Keeps;
    rolls_back = rollback-Keeps;
    claims = λ id now. modify-Keeps _;
    finishes = λ id now. modify-Keeps _;
    fails = λ id reason now. modify-Keeps _;
    reverts = λ id now. modify-Keeps _;
    describes = λ id text now. modify-Keeps _;
  }

  drain-Drained :
      (filter : Option (List String))
      → Triple
          (Drained n)
          (Transcriber.drain filter)
          (λ _. Drained (suc n))
          (λ _ w. drains w.trace ≤ suc n)
  unfolding Transcriber.drain Transcriber.request Transcriber.config Transcriber.answer
      Transcriber.raise_for_status Transcriber.parse_retry_after send ◌>>=◌
  drain-Drained filter = record { at = λ e w h. ground arith }

persist_pages :
    (job : TranscriptJob) (result : CollectionResult)
    → Triple (λ _. Unit) (persist job result) (λ p _. p.1.pages ≡ result.pages) (λ _ _. Unit)
unfolding persist persist_body persist_found persist_failure persist_transcript store_transcript
    mark_failed revert_pending claim_done modify commit_session give_up rollback try ◌>>=◌
persist_pages job result = record { at = λ e w h. ground arith }

persist_all_pages :
    (jobs : List TranscriptJob) (result : CollectionResult)
    → Triple (λ _. Unit) (persist_all jobs result) (λ p _. p.1.pages ≡ result.pages) (λ _ _. Unit)
unfolding persist_all
persist_all_pages [] result = Triple-pure _ (λ w h. refl)
persist_all_pages (job ∷ jobs) result =
    Triple-bind (λ p _. p.1.pages ≡ result.pages) (persist_pages job result)
      (λ p. record {
        at = λ e w same.
            (Triple-bind {P = λ _. Unit} (λ q _. q.1.pages ≡ p.1.pages) (persist_all_pages jobs p.1)
                (λ q. Triple-pure _ (λ w h. h ∙ same))).at
              e w tt;
      })

-- Exceptions leave at most this many pages asked for.
abbrev AtMost : ℕ → Error → World → Type 0
AtMost k _ w = drains w.trace ≤ k

persist_all-Drained :
    (k : ℕ) (jobs : List TranscriptJob) (result : CollectionResult)
    → Triple
        (Drained k)
        (persist_all jobs result)
        (λ p w. Drained k w × (p.1.pages ≡ result.pages))
        (AtMost k)
persist_all-Drained k jobs result =
    Triple-after _ _
      (Triple-both (Triple-keeps (persist_all-Keeps (Drained-IsInvariant k) jobs result))
        (Triple-before (λ _. Unit) (λ w h. tt) (persist_all_pages jobs result)))
      (λ p w h. h) (λ x w h. omega (arith, h.0))

ack-Drained :
    (k : ℕ) (ids : List String)
    → Triple (Drained k) (Transcriber.ack ids) (λ _. Drained k) (AtMost k)
ack-Drained k ids =
    Triple-after _ _
      (Triple-keeps (Transcriber.Keeps.ack-Keeps (Drained k) NoDrain (send-Keeps k) ids refl))
      (λ _ w h. h) (λ x w h. omega (arith, h))

Asked : ℕ → CollectionResult → Bool × CollectionResult → World → Type 0
Asked k result p w = Drained (suc k) w × (p.1.pages ≡ suc result.pages)

collect_page-Drained :
    (k : ℕ) (filter : Option (List String)) (result : CollectionResult)
    → Triple (Drained k) (collect_page filter result) (Asked k result) (AtMost (suc k))
unfolding collect_page Asked
collect_page-Drained k filter result =
    Triple-bind (λ _. Drained (suc k)) (drain-Drained k filter)
      λ page.
        Triple-if (null page.jobs) _ _ (λ _. Triple-pure _ (λ w h. (h, omega arith)))
          (λ _.
            Triple-bind (λ p w. Drained (suc k) w × (p.1.pages ≡ suc result.pages))
              (Triple-after _ _ (persist_all-Drained (suc k) page.jobs _)
                (λ p w h. (h.0, omega (arith, h.1))) (λ x w h. h))
              λ p.
                Triple-if (null p.0) _ _ (λ _. Triple-pure _ (λ w h. h))
                  (λ _. Triple-given _ λ same.
                    Triple-bind (λ _. Drained (suc k)) (ack-Drained (suc k) p.0)
                      (λ _. Triple-pure _ (λ w h. (h, same)))))

-- So many pages were asked for as are counted, and at most this many more than before.
Rounds : ℕ → ℕ → CollectionResult → CollectionResult → World → Type 0
Rounds k rounds result c w =
    (drains w.trace + result.pages ≡ k + c.pages) × (c.pages ≤ result.pages + rounds)

drain_pages-Rounds :
    (rounds k : ℕ) (filter : Option (List String)) (result : CollectionResult)
    → Triple
        (Drained k)
        (drain_pages rounds filter result)
        (Rounds k rounds result)
        (AtMost (k + rounds))
unfolding drain_pages Rounds Asked
drain_pages-Rounds zero k filter result = Triple-pure _ (λ w h. (omega (arith, h), omega arith))
drain_pages-Rounds (suc rounds) k filter result =
    Triple-bind (Asked k result)
      (Triple-after _ _ (collect_page-Drained k filter result) (λ p w h. h)
        (λ x w h. omega (arith, h)))
      λ p. Triple-given _ λ one.
        Triple-if p.0 _ _
          (λ _.
            Triple-after _ _ (drain_pages-Rounds rounds (suc k) filter p.1)
              (λ c w h. (omega (arith, h, one), omega (arith, h, one))) (λ x w h. omega (arith, h)))
          (λ _. Triple-pure _ (λ w h. (omega (arith, h, one), omega (arith, one))))

-- A collection ends after at most ten rounds, whatever the box answers: where it returns, it counts
-- as many pages as it asked the box for, and that is at most ten; where it raises, it asked for at
-- most ten.
pub collect_transcripts-Rounds :
    (filter : Option (List String)) (e : Env) (w : World)
    → Ends
        (λ c w'. (drains w'.trace ≡ drains w.trace + c.pages) × (c.pages ≤ max_drain_pages))
        (λ x w'. drains w'.trace ≤ drains w.trace + max_drain_pages)
        (collect_transcripts filter e w)
unfolding collect_transcripts Rounds
collect_transcripts-Rounds filter e w =
    Ends-weaken _ _ _ _ (collect_transcripts filter e w)
      (λ c w' h. (omega (arith, h), omega (arith, h))) (λ x w' h. h)
      ((drain_pages-Rounds max_drain_pages (drains w.trace) filter no_results).at e w refl)
