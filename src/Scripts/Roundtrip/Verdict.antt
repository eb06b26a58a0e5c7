-- ===== src/Scripts/Roundtrip/Verdict.antt =====
-- What stands behind the exit code of scripts/transcriber/roundtrip.py.
use limon_backend.Base.{
  ℕ, zero, suc, String, Bool, true, false, Option, none, some, List, [], ◌≡◌, refl, ltb, arith,
  ◌==◌, Option-cases, inl, inr,
}
use limon_backend.Models.{Recording, Event, Db, State}
use limon_backend.Models.Table.{find}
use limon_backend.Runtime.Errors.{Error}
use limon_backend.Runtime.Keeps.{Keeps}
use limon_backend.Runtime.Triple.{
  Triple, Triple-pure, Triple-raise, Triple-ask, Triple-if, Triple-before, Triple-after,
  Triple-keeps, Triple-bind,
}
use limon_backend.Runtime.Wire.{Request}
use limon_backend.Runtime.World.{World, sleep, durable, emit, send}
use limon_backend.Transcriber
use limon_backend.Transcription.Rows.{find_recording}
use limon_backend.Transcription.Collect.{same_event}
use limon_backend.Transcription.Settled.{AcksNothing, AckSafe}
use limon_backend.Transcription.Safety.{Stored, Good}
use limon_backend.Transcription.Acks.{collect_transcripts-Safely}
use limon_backend.Scripts.Roundtrip.{
  Args, Polled, collected, timed_out, unfinished, poll, is_ready, refresh, present, verdict, report,
  exit_code,
}

module _ (ids : List String) where
  sleep-Keeps : (n : ℕ) → Keeps (Good ids) (emit (sleep n))
  unfolding emit durable
  sleep-Keeps n = record {
    at = λ e w h. record {
      so = record { safe = h.so.safe; settled = h.so.settled };
      clean = h.clean;
    };
  }

pub poll-Good :
    (rounds : ℕ) (args : Args) (deadline : ℕ) (record_id : String)
    → Triple (Good []) (poll rounds args deadline record_id) (λ _. Good []) (λ _. Stored [])
unfolding poll
poll-Good zero args deadline record_id = Triple-pure _ (λ w h. h)
poll-Good (suc rounds) args deadline record_id =
    Triple-bind (λ _. Good []) (Triple-ask _ (λ e w h. h))
      λ now.
        Triple-if (ltb now deadline) _ _
          (λ _.
            Triple-bind (λ _. Good []) (collect_transcripts-Safely _)
              λ result.
                Triple-if (is_ready result) _ _ (λ _. Triple-pure _ (λ w h. h))
                  (λ _.
                    Triple-bind (λ _. Good [])
                      (Triple-after _ _ (Triple-keeps (sleep-Keeps [] args.interval)) (λ _ w h. h)
                        (λ _ w h. h.so))
                      (λ _. poll-Good rounds args deadline record_id)))
          (λ _. Triple-pure _ (λ w h. h))

verdict-means :
    (r : Recording) (x : Event)
    → verdict r x ≡ true
    → (r.state ≡ State.done)
      × ((text : String) × (x.description ≡ some text) × ((text == "") ≡ false))
verdict-means r x h = elim (Option-cases x.description) [
  | inl none_there ↦ absurd (ground (arith, h, none_there))
  | inr (text, there) ↦ (ground (arith, h), (text, there, ground (arith, h, there)))
]

-- The stored recording of this id is done, and the stored event has a text that is not empty.
pub record Passed (record_id event_id : String) (d : Db) : Type 0 where
  pub recording : Recording
  pub event : Event
  pub found : find_recording record_id d ≡ some recording
  pub found_event : find (same_event event_id) d.events ≡ some event
  pub is_done : recording.state ≡ State.done
  pub text : String
  pub described : event.description ≡ some text
  pub filled : (text == "") ≡ false

-- An exit code of 0 stands for rows that pass.
abbrev pub Proves : String → String → Option ℕ → Db → Type 0
Proves record_id event_id (some zero) d = Passed record_id event_id d
Proves record_id event_id _ d = Unit

-- And every acknowledgement was safe.
abbrev pub Means : String → String → Option ℕ → World → Type 0
Means record_id event_id code w = AckSafe w.trace × Proves record_id event_id code (durable w.trace)

abbrev pub Safe : Error → World → Type 0
Safe x w = AckSafe w.trace

module _ {A : Type 0} (query : Db → Option A) (P : World → Type 0) where
  present-Seen :
      (found : Option A)
      → Triple
          (λ w. P w × (query w.db ≡ found))
          (present found)
          (λ a w. P w × (query w.db ≡ some a))
          (λ _. P)
  present-Seen none = Triple-raise _ (λ w h. h.0)
  present-Seen (some a) = Triple-pure a (λ w h. h)

  refresh-Seen : Triple P (refresh query) (λ a w. P w × (query w.db ≡ some a)) (λ _. P)
  unfolding refresh
  refresh-Seen =
      Triple-bind (λ found w. P w × (query w.db ≡ found)) (Triple-ask _ (λ e w h. (h, refl)))
        present-Seen

module _ (record_id event_id : String) where
  -- The rows that the verdict is about, and nothing unsaved.
  record Seen (r : Recording) (x : Event) (w : World) : Type 0 where
    good : Good [] w
    found : find_recording record_id w.db ≡ some r
    found_event : find (same_event event_id) w.db.events ≡ some x

  send-Keeps :
      (r : Recording) (x : Event) (q : Request) → AcksNothing q.payload → Keeps (Seen r x) (send q)
  unfolding send durable
  send-Keeps r x q a = record {
    at = λ e w h. record {
      good = record {
        so = record { safe = (a (durable w.trace), h.good.so.safe); settled = tt };
        clean = h.good.clean;
      };
      found = h.found;
      found_event = h.found_event;
    };
  }

  leftover-Keeps : (r : Recording) (x : Event) → Keeps (Seen r x) (Transcriber.get_job record_id)
  leftover-Keeps r x =
      Transcriber.Keeps.get_job-Keeps (Seen r x) AcksNothing (send-Keeps r x) record_id (λ d. tt)

  proven :
      (r : Recording) (x : Event) (w : World) (b : Bool)
      → verdict r x ≡ b
      → Seen r x w
      → Proves record_id event_id (some (exit_code b)) w.db
  proven r x w true passes h =
      let (done, (text, described, filled)) = verdict-means r x passes in
      record {
        recording = r;
        event = x;
        found = h.found;
        found_event = h.found_event;
        is_done = done;
        text = text;
        described = described;
        filled = filled;
      }
  proven r x w false passes h = tt

  judged :
      (r : Recording) (x : Event) (w : World)
      → Seen r x w
      → Means record_id event_id (some (exit_code (verdict r x))) w
  judged r x w h = (h.good.so.safe, rw (← h.good.clean) (proven r x w (verdict r x) refl h))

  pub report-Means :
      (p : Polled) → Triple (Good []) (report record_id event_id p) (Means record_id event_id) Safe
  unfolding report
  report-Means unfinished = Triple-pure _ (λ w h. (h.so.safe, tt))
  report-Means timed_out = Triple-pure _ (λ w h. (h.so.safe, tt))
  report-Means (collected result) =
      Triple-bind _ (Triple-after _ _ (refresh-Seen _ (Good [])) (λ _ w h. h) (λ _ w h. h.so.safe))
        λ x.
          Triple-bind _
            (Triple-after _ _ (refresh-Seen (find_recording record_id) _) (λ _ w h. h)
              (λ _ w h. h.0.so.safe))
            λ r.
              Triple-bind (λ _. Seen r x)
                (Triple-before (Seen r x)
                  (λ w h. record { good = h.0.0; found = h.1; found_event = h.0.1 })
                  (Triple-after _ _ (Triple-keeps (leftover-Keeps r x)) (λ _ w h. h)
                    (λ _ w h. h.good.so.safe)))
                (λ leftover. Triple-pure _ (λ w h. judged r x w h))
