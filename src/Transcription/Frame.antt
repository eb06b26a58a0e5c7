-- ===== src/Transcription/Frame.antt =====
-- The rows but for a recording's state, error and time and an event's description and time, before
-- and after transcription.
use limon_backend.Base.{ℕ, String, Bool, none, List, [], ◌∷◌, ◌≡◌, ◌∙◌, refl, ap, arith, map}
use limon_backend.Models.{Recording, Event, Db, State}
use limon_backend.Models.Table.{update_where}
use limon_backend.Runtime.Wire.{Request}
use limon_backend.Transcription.Submit.{run_transcription}
use limon_backend.Transcription.Sweep.{sweep}
use limon_backend.Transcription.Invariants.{IsInvariant}
use limon_backend.Transcription.Invariants.Submission.{run_transcription-Keeps}
use limon_backend.Transcription.Invariants.Recovery.{sweep-Keeps}
use limon_backend.Runtime.World.{
  Call, start, Env, World, Trace, durable, modify, commit_session, rollback, send, emit,
  create_task, local_tagging, read_audio,
}
use limon_backend.Runtime.Keeps.{Keeps}
use limon_backend.Transcription.Rows.{update_recordings}
use limon_backend.Transcription.Collect.{describe, write_description}

abbrev recording_outline : Recording → Recording
recording_outline r = record r { state = State.pending; error = none; updated_at = 0 }

abbrev event_outline : Event → Event
event_outline x = record x { description = none; updated_at = 0 }

-- The rows with what transcription may write blotted out.
abbrev pub outline : Db → Db
outline d = record d {
  events = map event_outline d.events;
  recordings = map recording_outline d.recordings;
}

module _ {A : Type 0} (g : A → A) (p : A → Bool) (f : A → A) (same : (x : A) → g (f x) ≡ g x) where
  map-update_where : (xs : List A) → map g (update_where p f xs) ≡ map g xs
  unfolding update_where
  map-update_where [] = refl
  map-update_where (x ∷ xs) = ground (arith, map-update_where xs, same x)

outline-update_recordings :
    (p : Recording → Bool) (f : Recording → Recording) (d : Db)
    → ((r : Recording) → recording_outline (f r) ≡ recording_outline r)
    → outline (update_recordings p f d) ≡ outline d
unfolding update_recordings
outline-update_recordings p f d same =
    ap (λ rs. record (outline d) { recordings = rs })
      (map-update_where recording_outline p f same d.recordings)

outline-write_description :
    (id text : String) (now : ℕ) (d : Db) → outline (write_description id text now d) ≡ outline d
unfolding write_description
outline-write_description id text now d =
    ap (λ xs. record (outline d) { events = xs })
      (map-update_where event_outline _ (describe text now) (λ x. refl) d.events)

-- The session and the stored rows have this outline.
pub record Outlined (o : Db) (w : World) : Type 0 where
  pub seen : outline w.db ≡ o
  pub stored : outline (durable w.trace) ≡ o

module _ (o : Db) where
  modify-Keeps :
      (f : Db → Db) → ((d : Db) → outline (f d) ≡ outline d) → Keeps (Outlined o) (modify f)
  unfolding modify
  modify-Keeps f same = record {
    at = λ e w h. record { seen = same w.db ∙ h.seen; stored = h.stored };
  }

  commit-Keeps : Keeps (Outlined o) commit_session
  unfolding commit_session durable
  commit-Keeps = record { at = λ e w h. ground (arith, h.seen, h.stored) }

  rollback-Keeps : Keeps (Outlined o) rollback
  unfolding rollback
  rollback-Keeps = record { at = λ e w h. record { seen = h.stored; stored = h.stored } }

  emit-Keeps :
      (c : Call) → ((d : Trace) → durable (c ∷ d) ≡ durable d) → Keeps (Outlined o) (emit c)
  unfolding emit
  emit-Keeps c same = record {
    at = λ e w h. record { seen = h.seen; stored = ap outline (same w.trace) ∙ h.stored };
  }

  send-Keeps : (q : Request) → Keeps (Outlined o) (send q)
  unfolding send durable
  send-Keeps q = record { at = λ e w h. record { seen = h.seen; stored = h.stored } }

  outline-IsInvariant : IsInvariant (λ _. Unit) (Outlined o)
  unfolding durable
  outline-IsInvariant = record {
    sends = λ q _. send-Keeps q;
    queues = λ t. emit-Keeps (create_task t) (λ d. refl);
    starts_tagging = λ id. emit-Keeps (local_tagging id) (λ d. refl);
    reads = λ key. emit-Keeps (read_audio key) (λ d. refl);
    commits = commit-Keeps;
    rolls_back = rollback-Keeps;
    claims = λ id now. modify-Keeps _ (λ d. outline-update_recordings _ _ d (λ r. refl));
    finishes = λ id now. modify-Keeps _ (λ d. outline-update_recordings _ _ d (λ r. refl));
    fails = λ id reason now. modify-Keeps _ (λ d. outline-update_recordings _ _ d (λ r. refl));
    reverts = λ id now. modify-Keeps _ (λ d. outline-update_recordings _ _ d (λ r. refl));
    describes = λ id text now. modify-Keeps _ (outline-write_description id text now);
  }

run_transcription-outline :
    (id : String) (d : Db) (e : Env)
    → outline (durable (run_transcription id e (start d)).1.trace) ≡ outline d
unfolding durable
run_transcription-outline id d e =
    ((run_transcription-Keeps (outline-IsInvariant (outline d)) id (λ _ _ _. tt) tt).at e (start d)
      (record { seen = refl; stored = refl })).stored

sweep-outline : (d : Db) (e : Env) → outline (durable (sweep e (start d)).1.trace) ≡ outline d
unfolding durable
sweep-outline d e =
    ((sweep-Keeps (outline-IsInvariant (outline d)) (λ _. tt)).at e (start d)
      (record { seen = refl; stored = refl })).stored

-- Transcription neither adds, removes, reorders nor reassigns a row: a submission attempt, and a whole
-- recovery pass with the collection that it starts with, each from stored rows, leave stored rows
-- that differ at most in a recording's state, error and time, and in an event's description and
-- time, whatever fails.
pub transcription-outline :
    (id : String) (d : Db) (e : Env)
    → (outline (durable (run_transcription id e (start d)).1.trace) ≡ outline d)
      × (outline (durable (sweep e (start d)).1.trace) ≡ outline d)
transcription-outline id d e = (run_transcription-outline id d e, sweep-outline d e)
