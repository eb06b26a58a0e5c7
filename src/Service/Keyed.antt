-- ===== src/Service/Keyed.antt =====
-- The keys of the stored recordings, request after request.
use limon_backend.Base.{String, Option, ◌∷◌, ◌≡◌, refl, arith}
use limon_backend.Models.{Db}
use limon_backend.Runtime.Wire.{Request, Payload}
use limon_backend.Runtime.Keeps.{Keeps, keeps_rules}
use limon_backend.Runtime.World.{
  World, Call, Trace, create_task, delete_task, list_tasks, local_tagging, read_audio, delete_audio,
  sign_upload, durable, modify, emit, send, commit_session, rollback, pure, ◌>>◌,
}
use limon_backend.Transcription.Sweep.{sweep}
use limon_backend.Transcription.Invariants.Recovery.{sweep-Keeps}
use limon_backend.Routers.Internal.{transcripts_ready}
use limon_backend.Service.{Reaches, session_over}
use limon_backend.Service.Invariants.{IsServiceInvariant, AllKeyed, KeepsKeys, service-IsInvariant}
use limon_backend.Service.Served.{guard-Keeps, Reaches-Keeps}

-- What the session sees and what is stored.
record Keyed (w : World) : Type 0 where
  seen : AllKeyed w.db
  stored : AllKeyed (durable w.trace)

modify-Keeps : (f : Db → Db) → KeepsKeys f → Keeps Keyed (modify f)
unfolding modify
modify-Keeps f k = record { at = λ e w h. record { seen = k w.db h.seen; stored = h.stored } }

commit-Keeps : Keeps Keyed commit_session
unfolding commit_session durable
commit-Keeps = record { at = λ e w h. ground (arith, h.seen, h.stored) }

rollback-Keeps : Keeps Keyed rollback
unfolding rollback
rollback-Keeps = record { at = λ e w h. record { seen = h.stored; stored = h.stored } }

send-Keeps : (q : Request) → Keeps Keyed (send q)
unfolding send durable
send-Keeps q = record { at = λ e w h. record { seen = h.seen; stored = h.stored } }

emit-Keeps : (c : Call) → ((t : Trace) → durable (c ∷ t) ≡ durable t) → Keeps Keyed (emit c)
unfolding emit
emit-Keeps c same = record {
  at = λ e w h. record { seen = h.seen; stored = rw (same w.trace) h.stored };
}

Keyed-IsServiceInvariant : (A : Payload → Type 0) → IsServiceInvariant A Keyed
unfolding durable
Keyed-IsServiceInvariant A = record {
  sends = λ q _. send-Keeps q;
  queues = λ t. emit-Keeps (create_task t) (λ _. refl);
  starts_tagging = λ id. emit-Keeps (local_tagging id) (λ _. refl);
  reads = λ key. emit-Keeps (read_audio key) (λ _. refl);
  unqueues = λ name. emit-Keeps (delete_task name) (λ _. refl);
  lists_tasks = emit-Keeps list_tasks (λ _. refl);
  deletes = λ key. emit-Keeps (delete_audio key) (λ _. refl);
  signs = λ key. emit-Keeps (sign_upload key) (λ _. refl);
  commits = commit-Keeps;
  rolls_back = rollback-Keeps;
  changes = modify-Keeps;
}

recovers : Keeps Keyed sweep
recovers = sweep-Keeps (service-IsInvariant (Keyed-IsServiceInvariant (λ _. Unit))) (λ _. tt)

callback-Keeps :
    (headers : String → Option String)
    → Keeps Keyed (transcripts_ready headers >> pure {A = Unit {0}} tt)
unfolding transcripts_ready
callback-Keeps headers = search (keeps_rules, guard-Keeps, recovers)

-- Every stored recording stays at the key that is made for its owner and its id: if that is so of the
-- stored rows at first, it is so of the stored rows after any requests, served one after another,
-- each in a session of its own and however each ends.
pub Reaches-AllKeyed : {t u : Trace} → Reaches t u → AllKeyed (durable t) → AllKeyed (durable u)
Reaches-AllKeyed r h =
    (Reaches-Keeps (Keyed-IsServiceInvariant _)
      (λ w k. record { seen = k.stored; stored = k.stored })
      (λ headers e t. (callback-Keeps headers).at e (session_over t)) r
      (record { seen = h; stored = h })).stored
