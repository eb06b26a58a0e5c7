-- ===== src/Scripts/Roundtrip/Gate.antt =====
-- A whole run of scripts/transcriber/roundtrip.py over its throwaway database.
use limon_backend.Base.{
  ℕ, String, true, Option, none, some, List, [], ◌∷◌, ◌≡◌, refl, arith, truthy, ◌&&◌,
}
use limon_backend.Models.{Recording, Db}
use limon_backend.Models.Table.{find}
use limon_backend.Runtime.Ends.{
  Ends, Ends-bind, Ends-if, Ends-ask, Ends-pure, Ends-both, Ends-weaken,
}
use limon_backend.Runtime.Keeps.{Keeps-Ends}
use limon_backend.Runtime.Triple.{Triple, Triple-bind, Triple-after}
use limon_backend.Runtime.World.{Env, World, durable, start, modify, commit_session, ask, ◌>>=◌}
use limon_backend.Transcription.Submit.{Outcome, run_transcription}
use limon_backend.Transcription.Settled.{AckSafe}
use limon_backend.Transcription.Safety.{Good}
use limon_backend.Transcription.Claim.{Explains, run_transcription-Explains}
use limon_backend.Service.Acknowledged.{IsSafe-IsServiceInvariant}
use limon_backend.Service.Invariants.{service-IsInvariant}
use limon_backend.Transcription.Invariants.Submission.{run_transcription-Keeps}
use limon_backend.Scripts.Roundtrip.{
  Args, poll, report, seed, cycle, run_clip, main, with_clip, under, is_submitted, script_user,
  script_recording, script_event, throwaway,
}
use limon_backend.Scripts.Roundtrip.Verdict.{Means, Safe, poll-Good, report-Means}

-- What the script has when its recording was submitted.
abbrev Submits : Outcome → World → Type 0
Submits o w = AckSafe w.trace × (is_submitted o.status ≡ true → w.db ≡ durable w.trace)

Explains-clean :
    (id : String) (found : Option Recording) (o : Outcome) (w : World)
    → Explains id found o w
    → is_submitted o.status ≡ true
    → w.db ≡ durable w.trace
Explains-clean id none o w h s = ground arith
Explains-clean id (some r) o w h s = ground (arith, h)

-- The rows of the script, which one commit stores.
abbrev pub seeded : Args → ℕ → String → String → Db
seeded args now record_id event_id = record {
  users = script_user now ∷ [];
  events = script_event now event_id record_id ∷ [];
  recordings = script_recording args now record_id ∷ [];
  tags = [];
}

module _ (args : Args) (e : Env) where
  abbrev record_id : String
  record_id = e.new_id [] 0

  abbrev event_id : String
  event_id = e.new_id [] 1

  abbrev rows : Db
  rows = seeded args (e.now []) record_id event_id

  seed-Seeds :
      Ends
        (λ ids w. (ids.0 ≡ record_id) × (ids.1 ≡ event_id) × (w ≡ start rows))
        Safe
        (seed args e throwaway)
  unfolding seed modify commit_session ask ◌>>=◌
  seed-Seeds = ground arith

  run-Submits : Ends Submits Safe (run_transcription record_id e (start rows))
  unfolding durable find
  run-Submits =
      Ends-weaken _ _ _ _ (run_transcription record_id e (start rows))
        (λ o w h. (h.0, Explains-clean record_id _ o w h.1)) (λ x w h. h.0)
        (Ends-both _ _ _ _ (run_transcription record_id e (start rows))
          (Keeps-Ends _ _ e (start rows)
            (run_transcription-Keeps (service-IsInvariant IsSafe-IsServiceInvariant) record_id
              (λ _ _ _ d. tt) (λ d. tt))
            tt)
          (run_transcription-Explains record_id e (start rows) refl (refl, tt)))

  collects :
      (rounds deadline : ℕ)
      → Triple
          (Good [])
          (poll rounds args deadline record_id >>= report record_id event_id)
          (Means record_id event_id)
          Safe
  collects rounds deadline =
      Triple-bind (λ _. Good [])
        (Triple-after _ _ (poll-Good rounds args deadline record_id) (λ _ w h. h) (λ _ w h. h.safe))
        (report-Means record_id event_id)

  cycle-Means :
      (rounds : ℕ)
      → Ends (Means record_id event_id) Safe (cycle rounds args record_id event_id e (start rows))
  unfolding cycle
  cycle-Means rounds =
      Ends-bind _ _ Submits (run_transcription record_id) _ e (start rows) run-Submits λ o w h.
        Ends-if _ _ (is_submitted o.status) _ _ e w
          (λ s. Ends-ask _ _ _ _ e w (
            (collects rounds _).at e w
              (record { so = record { safe = h.0; settled = tt }; clean = h.1 s })))
          (λ _. Ends-pure _ _ (some 1) e w (h.0, tt))

module _ (rounds : ℕ) (args : Args) (e : Env) where
  run_clip-Means :
      (clip : Option (List ℕ))
      → Ends (Means (e.new_id [] 0) (e.new_id [] 1)) Safe (run_clip rounds args clip e throwaway)
  unfolding run_clip under
  run_clip-Means none = Ends-pure _ _ (some 2) e throwaway (tt, tt)
  run_clip-Means (some bytes) =
      Ends-bind _ _ _ (seed args) _ (with_clip bytes e) throwaway
        (seed-Seeds args (with_clip bytes e))
        (λ ids w h. rw (h.0) (rw (h.1) (rw (h.2) (cycle-Means args (with_clip bytes e) rounds))))

  -- The verdict is about stored rows. A run of the script over its throwaway database that gives the
  -- exit code 0 leaves the recording that it added stored as done, and the event that it added stored
  -- with a description that is not empty; and however the run ends, every acknowledgement that it
  -- sent named only recordings that the last commit before it left not waiting for the box.
  pub main-Means : Ends (Means (e.new_id [] 0) (e.new_id [] 1)) Safe (main rounds args e throwaway)
  unfolding main
  main-Means = Ends-ask _ _ _ _ e throwaway (
      Ends-if _ _ (truthy e.settings.transcriber_base_url && truthy e.settings.transcriber_token) _
        _ e throwaway (λ _. run_clip-Means args.clip)
        (λ _. Ends-pure _ _ (some 2) e throwaway (tt, tt)))
