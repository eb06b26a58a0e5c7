-- ===== src/Examples/Accounts.antt =====
-- An account with its tags: tokens, deletion and tagging.
use limon_backend.Base.{false, none, some, [], ◌∷◌, ◌≡◌, ◌↔◌, refl, any}
use limon_backend.Models.{State}
use limon_backend.Models.Table.{find, update_where}
use limon_backend.Runtime.Errors.{ok}
use limon_backend.Runtime.Ends.{Ends}
use limon_backend.Runtime.World.{Env, World, durable, columns_fit, start}
use limon_backend.Auth.{decode_token}
use limon_backend.Auth.Tokens.{Judged, Verified, decode_token_lem}
use limon_backend.Storage.{delete_user_audio}
use limon_backend.Storage.Ownership.{DeletesOwn, delete_user_audio-DeletesOwn}
use limon_backend.Tags.{delete_tag, remove_tag, holds_tag, is_tag}
use limon_backend.Tags.Detach.{delete_tag_lem}
use limon_backend.Tagging.Run.{is_event, run_tagging}
use limon_backend.Tagging.Run.Written.{Writes, run_tagging-Writes}
use limon_backend.Users.{is_user, delete_account}
use limon_backend.Users.Deletion.{Leaves, delete_account-Leaves}
use limon_backend.Examples.{settings, claims, env, event, rows, session, tag}

delete_account-Leaves_example :
    Ends
      (λ _. Leaves (rows State.done) (find (is_user "u1") (rows State.done).users))
      (λ _ w. durable w.trace ≡ rows State.done)
      (delete_account "u1" env (session State.done))
unfolding durable
delete_account-Leaves_example = delete_account-Leaves "u1" env (session State.done)

delete_tag_lem_example :
    ((delete_tag tag env (session State.done)).0 ≡ ok tt)
    × (durable (delete_tag tag env (session State.done)).1.trace
        ≡ remove_tag tag 1000 (rows State.done))
    × (any (holds_tag "u1" "t1") (durable (delete_tag tag env (session State.done)).1.trace).events
        ≡ false)
    × (find (is_tag "t1") (durable (delete_tag tag env (session State.done)).1.trace).tags ≡ none)
unfolding columns_fit update_where
delete_tag_lem_example = delete_tag_lem tag env (session State.done) refl

-- The session of an event with no tags.
abbrev untagged : World
untagged = start (record (rows State.done) {
  events = record event { tag_ids = some []; title = some "standup" } ∷ [];
})

run_tagging-Writes_example :
    Ends
      (Writes (find (is_event "x1") untagged.db.events) untagged.db)
      (λ _ w. durable w.trace ≡ durable untagged.trace)
      (run_tagging "x1" env untagged)
run_tagging-Writes_example = run_tagging-Writes "x1" env untagged

decode_token_lem_example :
    Judged env "good" (session State.done) (decode_token "good" env (session State.done))
    × ((decode_token "good" env (session State.done) ≡ (ok claims, session State.done))
        ↔ Verified env "good" claims)
decode_token_lem_example = decode_token_lem "good" claims env (session State.done)

-- A token that is accepted.
verified : Verified env "good" claims
verified = record {
  url = "https://p.supabase.co";
  algorithm = "HS256";
  key = "jwt-secret";
  project = refl;
  names = refl;
  trusted = refl;
  verifies = refl;
}

-- A bucket whose listing crosses an owner boundary.
abbrev in_bucket : Env
in_bucket = record env {
  settings = record settings { local_audio_dir = none; gcs_bucket = some "audio" };
  list_blobs = λ t bucket prefix. some "v0/u1/r1.m4a" ∷ some "v0/u2/r9.m4a" ∷ [];
}

delete_user_audio-DeletesOwn_example :
    DeletesOwn "u1"
      (delete_user_audio "u1" ("v0/u1/r1.m4a" ∷ []) in_bucket (session State.done)).1.trace
delete_user_audio-DeletesOwn_example =
    delete_user_audio-DeletesOwn "u1" ("v0/u1/r1.m4a" ∷ []) in_bucket (session State.done) refl tt
