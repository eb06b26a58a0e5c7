-- ===== src/Service/Invariants.antt =====
-- Conditions on the world that each step of a request keeps. A step may change rows as long as every
-- recording stays at the key that is made for its owner and its id.
use limon_backend.Base.{String, Bool, List, [], ◌∷◌, ◌++◌, ◌≡◌, arith, All}
use limon_backend.Models.{Recording, Db}
use limon_backend.Models.Table.{update_where, delete_where}
use limon_backend.Runtime.Wire.{Request, Task, Payload}
use limon_backend.Runtime.World.{
  World, create_task, delete_task, list_tasks, local_tagging, read_audio, delete_audio, sign_upload,
  modify, emit, send, commit_session, rollback,
}
use limon_backend.Runtime.Keeps.{Keeps, keeps_rules}
use limon_backend.Storage.Keys.{audio_object_key}
use limon_backend.Transcription.Collect.{write_description}
use limon_backend.Transcription.Rows.{update_recordings}
use limon_backend.Transcription.Invariants.{IsInvariant}

-- A recording at the key that is made for its owner and its id.
abbrev pub IsKeyed : Recording → Type 0
IsKeyed r = r.storage_key ≡ audio_object_key r.user_id r.id

-- Every recording of the rows is at its key.
abbrev pub AllKeyed : Db → Type 0
AllKeyed d = All IsKeyed d.recordings

abbrev pub KeepsKeys : (Db → Db) → Type 0
KeepsKeys f = (d : Db) → AllKeyed d → AllKeyed (f d)

pub record IsServiceInvariant (A : Payload → Type 0) (P : World → Type 0) : Type 0 where
  pub sends : (q : Request) → A q.payload → Keeps P (send q)
  pub queues : (t : Task) → Keeps P (emit (create_task t))
  pub starts_tagging : (id : String) → Keeps P (emit (local_tagging id))
  pub reads : (key : String) → Keeps P (emit (read_audio key))
  pub unqueues : (name : String) → Keeps P (emit (delete_task name))
  pub lists_tasks : Keeps P (emit list_tasks)
  pub deletes : (key : String) → Keeps P (emit (delete_audio key))
  pub signs : (key : String) → Keeps P (emit (sign_upload key))
  pub commits : Keeps P commit_session
  pub rolls_back : Keeps P rollback
  pub changes : (f : Db → Db) → KeepsKeys f → Keeps P (modify f)

module _ (p : Recording → Bool) (f : Recording → Recording)
    (same : (r : Recording) → IsKeyed r → IsKeyed (f r)) where
  updated_keys : (rs : List Recording) → All IsKeyed rs → All IsKeyed (update_where p f rs)
  unfolding update_where
  updated_keys [] h = tt
  updated_keys (r ∷ rs) h = ground (arith, h, same r, updated_keys rs)

  pub update_recordings-KeepsKeys : KeepsKeys (update_recordings p f)
  unfolding update_recordings
  update_recordings-KeepsKeys d h = updated_keys d.recordings h

pub deleted_keys :
    (p : Recording → Bool) (rs : List Recording) → All IsKeyed rs → All IsKeyed (delete_where p rs)
unfolding delete_where
deleted_keys p [] h = tt
deleted_keys p (r ∷ rs) h = ground (arith, h, deleted_keys p rs)

pub added_keys :
    (rs : List Recording) (r : Recording) → All IsKeyed rs → IsKeyed r → All IsKeyed (rs ++ r ∷ [])
added_keys [] r h k = (k, tt)
added_keys (s ∷ rs) r h k = (h.0, added_keys rs r h.1 k)

module _ {A : Payload → Type 0} {P : World → Type 0} (inv : IsServiceInvariant A P) where
  open inv use {
    sends, queues, starts_tagging, reads, unqueues, lists_tasks, deletes, signs, commits,
    rolls_back, changes,
  }

  pub queues-Keeps : (t : Task) → Keeps P (emit (create_task t))
  queues-Keeps = queues

  pub starts_tagging-Keeps : (id : String) → Keeps P (emit (local_tagging id))
  starts_tagging-Keeps = starts_tagging

  pub unqueues-Keeps : (name : String) → Keeps P (emit (delete_task name))
  unqueues-Keeps = unqueues

  pub lists_tasks-Keeps : Keeps P (emit list_tasks)
  lists_tasks-Keeps = lists_tasks

  pub deletes-Keeps : (key : String) → Keeps P (emit (delete_audio key))
  deletes-Keeps = deletes

  pub signs-Keeps : (key : String) → Keeps P (emit (sign_upload key))
  signs-Keeps = signs

  pub commits-Keeps : Keeps P commit_session
  commits-Keeps = commits

  pub rolls_back-Keeps : Keeps P rollback
  rolls_back-Keeps = rolls_back

  -- A change that leaves the table of recordings alone.
  pub changes-Keeps : (f : Db → Db) → KeepsKeys f → Keeps P (modify f)
  changes-Keeps = changes

  pub service-IsInvariant : IsInvariant A P
  unfolding write_description
  service-IsInvariant = record {
    sends = sends;
    queues = queues;
    starts_tagging = starts_tagging;
    reads = reads;
    commits = commits;
    rolls_back = rolls_back;
    claims = λ id now. changes _ (update_recordings-KeepsKeys _ _ (λ r h. h));
    finishes = λ id now. changes _ (update_recordings-KeepsKeys _ _ (λ r h. h));
    fails = λ id reason now. changes _ (update_recordings-KeepsKeys _ _ (λ r h. h));
    reverts = λ id now. changes _ (update_recordings-KeepsKeys _ _ (λ r h. h));
    describes = λ id text now. changes _ (λ d h. h);
  }

pub ruleset service_steps = (
  keeps_rules, queues-Keeps, starts_tagging-Keeps, unqueues-Keeps, lists_tasks-Keeps, deletes-Keeps,
  signs-Keeps, commits-Keeps, rolls_back-Keeps, changes-Keeps,
)
