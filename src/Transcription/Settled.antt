-- ===== src/Transcription/Settled.antt =====
-- A recording is settled when nothing waits for the box's answer about it, and a trace is safe when
-- every acknowledgement named settled recordings only.
use limon_backend.Base.{
  String, Bool, true, false, Option, none, some, [], ◌∷◌, ◌≡◌, arith, ◌==◌, All, inl, inr, ap,
  Option-cases,
}
use limon_backend.Models.{Recording, Db, State}
use limon_backend.Models.Table.{find, find-update_where-some, find-update_where-none}
use limon_backend.Runtime.Wire.{Payload, job_ids}
use limon_backend.Runtime.World.{Trace, http, durable}
use limon_backend.Transcription.Rows.{has_id, find_recording, update_recordings}

abbrev pub is_waiting : State → Bool
is_waiting State.transcribing = true
is_waiting _ = false

abbrev pub waits : Option Recording → Bool
waits none = false
waits (some r) = is_waiting r.state

-- No row of this id is `transcribing`.
abbrev pub Settled : Db → String → Type 0
Settled d id = waits (find_recording id d) ≡ false

abbrev pub Acknowledges : Db → Payload → Type 0
Acknowledges d (job_ids ids) = All (Settled d) ids
Acknowledges d _ = Unit

-- A payload that acknowledges nothing.
abbrev pub AcksNothing : Payload → Type 0
AcksNothing p = (d : Db) → Acknowledges d p

-- Whatever was acknowledged was settled in the rows that the last commit before it had left.
abbrev pub AckSafe : Trace → Type 0
AckSafe [] = Unit
AckSafe (http q ∷ t) = Acknowledges (durable t) q.payload × AckSafe t
AckSafe (_ ∷ t) = AckSafe t

-- A change that keeps the id and never leaves a row `transcribing`.
pub record IsSettling (f : Recording → Recording) : Type 0 where
  pub same_id : (r : Recording) → (f r).id ≡ r.id
  pub settles : (r : Recording) → is_waiting (f r).state ≡ false

module _ (p : Recording → Bool) (f : Recording → Recording) (s : IsSettling f) where
  same_test : (id : String) (r : Recording) → has_id id (f r) ≡ has_id id r
  same_test id r = ap (λ i. i == id) (s.same_id r)

  pub Settled-update : (d : Db) (id : String) → Settled d id → Settled (update_recordings p f d) id
  unfolding find_recording update_recordings
  Settled-update d id h = elim (Option-cases (find (has_id id) d.recordings)) [
    | inl e ↦ rw (find-update_where-none (has_id id) p f d.recordings (same_test id) e)
    | inr (r, e) ↦
        rw (find-update_where-some (has_id id) p f d.recordings r (same_test id) e)
          (ground (arith, s.settles r))
  ]

  -- The row of an id that the update changes is settled, whatever it was.
  pub Settled-update_self :
      (d : Db) (id : String)
      → ((r : Recording) → find_recording id d ≡ some r → waits (some r) ≡ true → p r ≡ true)
      → Settled (update_recordings p f d) id
  unfolding find_recording update_recordings
  Settled-update_self d id changes = elim (Option-cases (find (has_id id) d.recordings)) [
    | inl e ↦ rw (find-update_where-none (has_id id) p f d.recordings (same_test id) e)
    | inr (r, e) ↦
        rw (find-update_where-some (has_id id) p f d.recordings r (same_test id) e)
          (ground (arith, s.settles r, changes r e))
  ]
