-- ===== src/Tagging/Run/Written.antt =====
-- What tagging may write.
use limon_backend.Base.{
  ℕ, String, Bool, true, false, Option, none, some, List, ◌≡◌, refl, ap, sym, arith, ◌&&◌, inl, inr,
  Bool-cases, if◌then◌else◌, All, contains, map, not, dedupe, empty_or_none, is_blank,
}
use limon_backend.Models.{Tag, Event, Db}
use limon_backend.Models.Table.{find, update_where}
use limon_backend.Runtime.Errors.{Error}
use limon_backend.Runtime.Ends.{Ends}
use limon_backend.Runtime.World.{
  Env, World, pure, try, ◌>>=◌, ◌>>◌, Exec, durable, modify, commit_session, send, columns_fit,
  utcnow,
}
use limon_backend.Runtime.Triple.{
  Triple, Triple-pure, Triple-ask, Triple-if, Triple-bind, Triple-before,
}
use limon_backend.Tags.{list_tags}
use limon_backend.Tagger.{invented, suggest_tags, send_prompt, parse_retry_after, raise_for_status}
use limon_backend.Tagger.Prompt.{tag_id}
use limon_backend.Tagging.Run.Listed.{IsOwned, All-dedupe, All-not_invented, shown, listed-IsOwned}
use limon_backend.Tagging.Run.{
  Outcome, Status, Suggestion, chosen, stopped, is_event, set_tags, offered, after_tagger_error,
  suggest, write_tags, tag_found, run_tagging, text_of, outcome,
}

abbrev pub is_done : Status → Bool
is_done Status.done = true
is_done _ = false

-- A failure of the model never stands for a success.
abbrev ends_short : Suggestion → Bool
ends_short (chosen ids) = true
ends_short (stopped o) = not (is_done o.status)

-- The session sees these rows over those stored ones.
abbrev Sees : Db → Db → World → Type 0
Sees d stored w = (w.db ≡ d) × (durable w.trace ≡ stored)

-- Asking the model changes no row.
suggest-Sees :
    (text : String) (existing : List (String × String)) (d stored : Db)
    → Triple
        (Sees d stored)
        (suggest text existing)
        (λ s w. (ends_short s ≡ true) × Sees d stored w)
        (λ _ w. durable w.trace ≡ stored)
unfolding suggest after_tagger_error suggest_tags send_prompt raise_for_status parse_retry_after
    send durable try ◌>>=◌
suggest-Sees text existing d stored = record { at = λ e w h. ground arith }

-- The rows with the tags of an event set, and only its.
abbrev pub with_tags : String → List String → ℕ → Db → Db
with_tags id ids now d = record d {
  events = update_where (is_event id) (set_tags ids now) d.events;
}

pub record Tagged (x : Event) (before after : Db) : Type 0 where
  pub ids : List String
  pub now : ℕ
  pub untagged : empty_or_none x.tag_ids ≡ true
  pub owned : All (IsOwned x.user_id before) ids
  pub written : after ≡ with_tags x.id ids now before

-- What a run leaves of the rows, for the event that it read.
abbrev pub Writes : Option Event → Db → Outcome → World → Type 0
Writes none d o w = (o ≡ outcome Status.noop) × (w.db ≡ d)
Writes (some x) d o w =
    if is_done o.status then Tagged x d w.db × (durable w.trace ≡ w.db) else w.db ≡ d

module _ (x : Event) (d stored : Db) (untagged : empty_or_none x.tag_ids ≡ true) where
  LeavesStored : Error → World → Type 0
  LeavesStored _ w = durable w.trace ≡ stored

  store : List String → Exec Outcome
  store ids = do
    now ← utcnow
    modify (with_tags x.id ids now)
    commit_session
    pure (outcome Status.done)

  store-Writes :
      (ids : List String)
      → All (IsOwned x.user_id d) ids
      → Triple (Sees d stored) (store ids) (Writes (some x) d) LeavesStored
  unfolding store modify commit_session durable LeavesStored ◌>>=◌
  store-Writes ids owned = record { at = λ e w h. go e w h }
    where
      tagged :
          (e : Env) (w : World) → w.db ≡ d → Tagged x d (with_tags x.id ids (e.now w.trace) w.db)
      tagged e w same = record {
        ids = ids;
        now = e.now w.trace;
        untagged = untagged;
        owned = owned;
        written = ap (with_tags x.id ids (e.now w.trace)) same;
      }

      go :
          (e : Env) (w : World)
          → Sees d stored w
          → Ends (Writes (some x) d) LeavesStored (store ids e w)
      go e w h = elim (Bool-cases (e.commit_fails w.trace)) [
        | inl c ↦ rw c h.1
        | inr c ↦
            rw c
              (elim (Bool-cases (
                e.enforces_lengths
                && not (columns_fit (with_tags x.id ids (e.now w.trace) w.db)))) [
                  | inl f ↦ rw f h.1
                  | inr f ↦ rw f (tagged e w h.0, refl)
                ])
      ]

  write_tags-Writes :
      (allowed : List String) (s : Suggestion)
      → ((id : String) → contains id allowed ≡ true → IsOwned x.user_id d id)
      → Triple
          (λ w. (ends_short s ≡ true) × Sees d stored w)
          (write_tags x allowed s)
          (Writes (some x) d)
          LeavesStored
  unfolding write_tags store
  write_tags-Writes allowed (stopped o) listed = Triple-pure _ (λ w h. ground arith)
  write_tags-Writes allowed (chosen ids) listed =
      Triple-if (invented allowed ids) _ _ (λ _. Triple-pure _ (λ w h. ground arith))
        (λ b.
          Triple-before (Sees d stored) (λ w h. h.1)
            (store-Writes (dedupe ids)
              (All-dedupe _ ids (All-not_invented _ allowed ids listed b))))

  Offers : List Tag → Type 0
  Offers ts = (id : String) → shown x.user_id id ts ≡ true → IsOwned x.user_id d id

  list_tags-Offers :
      Triple
        (Sees d stored)
        (list_tags 10000 0 x.user_id)
        (λ p w. Offers p.0 × Sees d stored w)
        LeavesStored
  unfolding list_tags Offers
  list_tags-Offers =
      Triple-ask _
        (λ e w h. (λ id k. listed-IsOwned x.user_id id 10000 e.collates d (rw (sym h.0) k), h))

  ask_and_write :
      (text : String) (ts : List Tag)
      → Triple
          (λ w. Offers ts × Sees d stored w)
          (suggest text (map offered ts) >>= write_tags x (map tag_id (map offered ts)))
          (Writes (some x) d)
          LeavesStored
  unfolding Offers shown LeavesStored
  ask_and_write text ts = record {
    at = λ e w h.
        (Triple-bind (λ s w'. (ends_short s ≡ true) × Sees d stored w')
            (suggest-Sees text (map offered ts) d stored)
            (λ s. write_tags-Writes (map tag_id (map offered ts)) s h.0)).at
          e w h.1;
  }

tag_found-Writes :
    (found : Option Event) (d stored : Db)
    → Triple (Sees d stored) (tag_found found) (Writes found d) (λ _ w. durable w.trace ≡ stored)
unfolding tag_found is_blank LeavesStored ◌>>=◌
tag_found-Writes none d stored = Triple-pure _ (λ w h. (refl, h.0))
tag_found-Writes (some x) d stored =
    Triple-if (not (empty_or_none x.tag_ids)) _ _ (λ _. Triple-pure _ (λ w h. h.0))
      λ b.
        Triple-if (is_blank (text_of x.title x.description)) _ _ (λ _. Triple-pure _ (λ w h. h.0))
          (λ _.
            Triple-bind _ (list_tags-Offers x d stored (ground arith))
              (λ p. ask_and_write x d stored (ground arith) (text_of x.title x.description) p.0))

-- A tagging run, whatever the model answers. If it returns done, it gave the event that it read,
-- which had no tags, ids of tags that the event's owner has, it changed no row of another id, and
-- it stored that; with any other outcome it changed no row, and for an event that is missing the
-- outcome is a no-op. If it raises, the stored rows are as they were.
pub run_tagging-Writes :
    (id : String) (e : Env) (w : World)
    → Ends
        (Writes (find (is_event id) w.db.events) w.db)
        (λ _ w'. durable w'.trace ≡ durable w.trace)
        (run_tagging id e w)
unfolding run_tagging ◌>>=◌
run_tagging-Writes id e w = (tag_found-Writes _ w.db (durable w.trace)).at e w (refl, refl)
