-- ===== src/Scripts/Roundtrip/Polling.antt =====
-- The polling loop of scripts/transcriber/roundtrip.py, against the clock that its deadline is read
-- from.
use Prim.Native.Nat.{ℕ}
use limon_backend.Base.{
  zero, suc, ◌+◌, ◌*◌, ◌≤◌, String, Option, none, some, List, [], ◌∷◌, ◌≢◌, refl, arith, ltb,
  truthy, ◌&&◌,
}
use native.Mathlib.Nat.{le_refl}
use limon_backend.Models.{Db}
use limon_backend.Runtime.Errors.{Error}
use limon_backend.Runtime.Ends.{
  Ends, Ends-bind, Ends-if, Ends-ask, Ends-emit, Ends-pure, Ends-any, Ends-weaken,
}
use limon_backend.Runtime.Keeps.{Keeps, Keeps-Ends}
use limon_backend.Runtime.Wire.{Request}
use limon_backend.Runtime.World.{
  Env, World, Trace, Call, http, commit, sleep, create_task, local_tagging, read_audio, modify,
  emit, send, commit_session, rollback,
}
use limon_backend.Transcription.Collect.{CollectionResult, collect_transcripts}
use limon_backend.Transcription.Submit.{run_transcription}
use limon_backend.Transcription.Invariants.{IsInvariant}
use limon_backend.Transcription.Invariants.Recovery.{collect_transcripts-Keeps}
use limon_backend.Scripts.Roundtrip.{
  Args, Polled, collected, timed_out, unfinished, poll, is_ready, report, cycle, run_clip, main,
  with_clip, under, is_submitted, seed,
}

-- A clock that is not set back, and that a pause advances by its length at least.
pub record IsClock (now : Trace → ℕ) : Type 0 where
  pub forward : (c : Call) (t : Trace) → now t ≤ now (c ∷ t)
  pub pauses : (n : ℕ) (t : Trace) → now t + n ≤ now (sleep n ∷ t)

module _ (now : Trace → ℕ) (clock : IsClock now) where
  abbrev IsLater : ℕ → World → Type 0
  IsLater n w = n ≤ now w.trace

  module _ (n : ℕ) where
    emit-Keeps : (c : Call) → Keeps (IsLater n) (emit c)
    unfolding emit
    emit-Keeps c = record { at = λ e w h. omega (arith, h, clock.forward c w.trace) }

    send-Keeps : (q : Request) → Keeps (IsLater n) (send q)
    unfolding send
    send-Keeps q = record { at = λ e w h. omega (arith, h, clock.forward (http q) w.trace) }

    modify-Keeps : (f : Db → Db) → Keeps (IsLater n) (modify f)
    unfolding modify
    modify-Keeps f = record { at = λ e w h. h }

    commit-Keeps : Keeps (IsLater n) commit_session
    unfolding commit_session
    commit-Keeps = record { at = λ e w h. ground (arith, h, clock.forward (commit w.db) w.trace) }

    rollback-Keeps : Keeps (IsLater n) rollback
    unfolding rollback
    rollback-Keeps = record { at = λ e w h. h }

    IsLater-IsInvariant : IsInvariant (λ _. Unit) (IsLater n)
    IsLater-IsInvariant = record {
      sends = λ q _. send-Keeps q;
      queues = λ t. emit-Keeps (create_task t);
      starts_tagging = λ id. emit-Keeps (local_tagging id);
      reads = λ key. emit-Keeps (read_audio key);
      commits = commit-Keeps;
      rolls_back = rollback-Keeps;
      claims = λ id now. modify-Keeps _;
      finishes = λ id now. modify-Keeps _;
      fails = λ id reason now. modify-Keeps _;
      reverts = λ id now. modify-Keeps _;
      describes = λ id text now. modify-Keeps _;
    }

abbrev IsLeft : Polled → World → Type 0
IsLeft p w = p ≢ unfinished

abbrev pub Raised : Error → World → Type 0
Raised x w = Unit

left_collected : (c : CollectionResult) → collected c ≢ unfinished
left_collected c = cc

left_late : timed_out ≢ unfinished
left_late = cc

module _ (args : Args) (record_id : String) (deadline : ℕ) (e : Env) (clock : IsClock e.now) where
  collects :
      (w : World)
      → Ends
          (λ _. IsLater e.now clock (e.now w.trace))
          Raised
          (collect_transcripts (some (record_id ∷ [])) e w)
  collects w =
      Ends-weaken (λ _. IsLater e.now clock (e.now w.trace)) _
        (λ _. IsLater e.now clock (e.now w.trace)) Raised
        (collect_transcripts (some (record_id ∷ [])) e w) (λ _ _ l. l) (λ _ _ _. tt)
        (Keeps-Ends _ _ e w
          (collect_transcripts-Keeps (IsLater-IsInvariant e.now clock (e.now w.trace)) (λ _. tt) _
            tt)
          (le_refl _))

  -- Each round that is not the last one moves the clock on by the interval.
  poll-Finishes :
      (k : ℕ) (w : World)
      → deadline ≤ e.now w.trace + k * args.interval
      → Ends IsLeft Raised (poll (suc k) args deadline record_id e w)
  unfolding poll
  poll-Finishes zero w h = Ends-ask IsLeft Raised _ _ e w (
      Ends-if IsLeft Raised (ltb (e.now w.trace) deadline) _ _ e w
        (λ early. absurd (ground (arith, h, early)))
        (λ _. Ends-pure IsLeft Raised timed_out e w left_late))
  poll-Finishes (suc k) w h = Ends-ask IsLeft Raised _ _ e w (
      Ends-if IsLeft Raised (ltb (e.now w.trace) deadline) _ _ e w
        (λ _.
          Ends-bind IsLeft Raised (λ _. IsLater e.now clock (e.now w.trace))
            (collect_transcripts (some (record_id ∷ []))) _ e w (collects w)
            (λ result w' later.
              Ends-if IsLeft Raised (is_ready result) _ _ e w'
                (λ _. Ends-pure IsLeft Raised (collected result) e w' (left_collected result))
                (λ _. Ends-emit IsLeft Raised (sleep args.interval) _ e w' (
                  poll-Finishes k (record w' { trace = sleep args.interval ∷ w'.trace })
                    (omega (arith, h, later, clock.pauses args.interval w'.trace))))))
        (λ _. Ends-pure IsLeft Raised timed_out e w left_late))

abbrev pub Exits : Option ℕ → World → Type 0
Exits code w = code ≢ none

exits_some : (n : ℕ) → some n ≢ none
exits_some n = cc

module _ (e : Env) (args : Args) (k : ℕ) (rounds : args.timeout ≤ k * args.interval)
    (clock : IsClock e.now) where
  report-Exits :
      (record_id event_id : String) (p : Polled) (w : World)
      → IsLeft p w
      → Ends Exits Raised (report record_id event_id p e w)
  unfolding report
  report-Exits record_id event_id (collected result) w left =
      Ends-bind Exits Raised (λ _ _. Unit) _ _ e w (Ends-any _)
        λ event w' _.
          Ends-bind Exits Raised (λ _ _. Unit) _ _ e w' (Ends-any _)
            λ recording w'' _.
              Ends-bind Exits Raised (λ _ _. Unit) _ _ e w'' (Ends-any _)
                (λ leftover w3 _. Ends-pure Exits Raised _ e w3 (exits_some _))
  report-Exits record_id event_id timed_out w left = Ends-pure Exits Raised _ e w (exits_some 1)
  report-Exits record_id event_id unfinished w left = absurd (left refl)

  cycle-Exits :
      (record_id event_id : String) (w : World)
      → Ends Exits Raised (cycle (suc k) args record_id event_id e w)
  unfolding cycle
  cycle-Exits record_id event_id w =
      Ends-bind Exits Raised (λ _ _. Unit) (run_transcription record_id) _ e w (Ends-any _)
        λ outcome w' _.
          Ends-if Exits Raised (is_submitted outcome.status) _ _ e w'
            (λ _. Ends-ask Exits Raised _ _ e w' (
              Ends-bind Exits Raised IsLeft
                (poll (suc k) args (e.now w'.trace + args.timeout) record_id) _ e w'
                (poll-Finishes args record_id _ e clock k w' (omega (arith, rounds)))
                (report-Exits record_id event_id)))
            (λ _. Ends-pure Exits Raised _ e w' (exits_some 1))

module _ (e : Env) (args : Args) (k : ℕ) (rounds : args.timeout ≤ k * args.interval)
    (clock : IsClock e.now) where
  run_clip-Exits :
      (clip : Option (List ℕ)) (w : World) → Ends Exits Raised (run_clip (suc k) args clip e w)
  unfolding run_clip under
  run_clip-Exits none w = Ends-pure Exits Raised _ e w (exits_some 2)
  run_clip-Exits (some bytes) w =
      Ends-bind Exits Raised (λ _ _. Unit) (seed args) _ (with_clip bytes e) w (Ends-any _)
        (λ ids w' _. cycle-Exits (with_clip bytes e) args k rounds clock ids.0 ids.1 w')

  -- The script ends. On a clock that is not set back and that a pause of the script advances by its
  -- length at least, and where so many intervals make up the timeout, the script gives an exit code
  -- or raises after at most one round of polling more, whatever the box, the queue and the database
  -- answer.
  pub main-Exits : (w : World) → Ends Exits Raised (main (suc k) args e w)
  unfolding main
  main-Exits w = Ends-ask Exits Raised _ _ e w (
      Ends-if Exits Raised
        (truthy e.settings.transcriber_base_url && truthy e.settings.transcriber_token) _ _ e w
        (λ _. run_clip-Exits args.clip w) (λ _. Ends-pure Exits Raised _ e w (exits_some 2)))
