-- ===== src/Service/Acknowledged.antt =====
-- The acknowledgements of the whole service, request after request.
use limon_backend.Base.{String, Option, [], ◌∷◌, arith, refl}
use limon_backend.Runtime.Wire.{Request}
use limon_backend.Runtime.Keeps.{Keeps}
use limon_backend.Runtime.Triple.{Triple-pure, Triple-bind}
use limon_backend.Runtime.World.{
  Env, World, Call, Trace, create_task, delete_task, list_tasks, local_tagging, read_audio,
  delete_audio, sign_upload, durable, modify, emit, send, commit_session, rollback, pure, ◌>>◌,
}
use limon_backend.Transcription.Settled.{AckSafe, AcksNothing}
use limon_backend.Transcription.Safety.{Good}
use limon_backend.Transcription.Acks.{Safely, reads, sweep-Safely, safe_end}
use limon_backend.Routers.Internal.{transcripts_ready}
use limon_backend.Service.{Reaches, session_over}
use limon_backend.Service.Invariants.{IsServiceInvariant}
use limon_backend.Service.Served.{guard-Keeps, Reaches-Keeps}

abbrev IsSafe : World → Type 0
IsSafe w = AckSafe w.trace

send-Keeps : (q : Request) → AcksNothing q.payload → Keeps IsSafe (send q)
unfolding send
send-Keeps q a = record { at = λ e w h. (a (durable w.trace), h) }

emit-Keeps : (c : Call) → ((t : Trace) → AckSafe t → AckSafe (c ∷ t)) → Keeps IsSafe (emit c)
unfolding emit
emit-Keeps c same = record { at = λ e w h. same w.trace h }

commit-Keeps : Keeps IsSafe commit_session
unfolding commit_session
commit-Keeps = record { at = λ e w h. ground (arith, h) }

pub IsSafe-IsServiceInvariant : IsServiceInvariant AcksNothing IsSafe
unfolding modify rollback
IsSafe-IsServiceInvariant = record {
  sends = send-Keeps;
  queues = λ t. emit-Keeps (create_task t) (λ _ h. h);
  starts_tagging = λ id. emit-Keeps (local_tagging id) (λ _ h. h);
  reads = λ key. emit-Keeps (read_audio key) (λ _ h. h);
  unqueues = λ name. emit-Keeps (delete_task name) (λ _ h. h);
  lists_tasks = emit-Keeps list_tasks (λ _ h. h);
  deletes = λ key. emit-Keeps (delete_audio key) (λ _ h. h);
  signs = λ key. emit-Keeps (sign_upload key) (λ _ h. h);
  commits = commit-Keeps;
  rolls_back = record { at = λ e w h. h };
  changes = λ f k. record { at = λ e w h. h };
}

callback-Safely :
    (headers : String → Option String)
    → Safely (transcripts_ready headers >> pure {A = Unit {0}} tt)
unfolding transcripts_ready
callback-Safely headers =
    Triple-bind (λ _. Good [])
      (Triple-bind (λ _. Good []) (reads [] (guard-Keeps _ headers))
        λ _. Triple-bind (λ _. Good []) sweep-Safely (λ summary. Triple-pure _ (λ w h. h)))
      (λ _. Triple-pure _ (λ w h. h))

callback-AckSafe :
    (headers : String → Option String) (e : Env) (t : Trace)
    → AckSafe t
    → AckSafe ((transcripts_ready headers >> pure {A = Unit {0}} tt) e (session_over t)).1.trace
callback-AckSafe headers e t h =
    safe_end ((transcripts_ready headers >> pure {A = Unit {0}} tt) e (session_over t)) (
      (callback-Safely headers).at e (session_over t)
        (record { so = record { safe = h; settled = tt }; clean = refl }))

-- Persist, then acknowledge, for the whole service: whatever requests are served one after another,
-- each in a session of its own and however each ends, and whatever is outside answers each of them,
-- an acknowledgement is only ever sent for recordings that the last commit before it left not
-- waiting for the box, where that is so of the trace that they start from.
pub Reaches-AckSafe : {t u : Trace} → Reaches t u → AckSafe t → AckSafe u
Reaches-AckSafe = Reaches-Keeps IsSafe-IsServiceInvariant (λ w h. h) callback-AckSafe
