-- ===== src/Storage/Ownership.antt =====
-- Whose audio the deletion of an account's audio deletes.
use limon_backend.Base.{
  String, Bool, true, false, Option, none, some, List, [], ◌∷◌, ◌≡◌, any, truthy, if◌then◌else◌,
  Bool-cases, inl, inr,
}
use limon_backend.Runtime.Errors.{Result, ok, err, audio_cleanup}
use limon_backend.Runtime.World.{
  Env, World, Exec, Trace, delete_audio, raise, emit, continue, ◌>>=◌,
}
use limon_backend.Storage.{
  audio_prefix, foreign, delete_one, delete_blobs, delete_user_audio_sync, delete_user_audio,
}

-- Every object that was deleted has a key of this owner.
abbrev pub DeletesOwn : String → Trace → Type 0
DeletesOwn user [] = Unit
DeletesOwn user (delete_audio key ∷ t) = (foreign user key ≡ false) × DeletesOwn user t
DeletesOwn user (_ ∷ t) = DeletesOwn user t

delete_blobs-DeletesOwn :
    (user : String) (names : List (Option String)) (e : Env) (w : World)
    → DeletesOwn user w.trace
    → DeletesOwn user (delete_blobs user names e w).1.trace
unfolding delete_blobs delete_one emit ◌>>=◌
delete_blobs-DeletesOwn user [] e w h = h
delete_blobs-DeletesOwn user (none ∷ names) e w h = h
delete_blobs-DeletesOwn user (some name ∷ names) e w h = elim (Bool-cases (foreign user name)) [
  | inl b ↦ rw b h
  | inr b ↦ rw b (elim (Bool-cases (e.deletes_audio w.trace name)) [
    | inl d ↦ rw d (
        delete_blobs-DeletesOwn user names e (record w { trace = delete_audio name ∷ w.trace })
          (b, h))
    | inr d ↦ rw d (b, h)
  ])
]

delete_user_audio_sync-DeletesOwn :
    (user prefix : String) (e : Env) (w : World)
    → truthy e.settings.local_audio_dir ≡ false
    → DeletesOwn user w.trace
    → DeletesOwn user (delete_user_audio_sync user prefix e w).1.trace
unfolding delete_user_audio_sync ◌>>=◌
delete_user_audio_sync-DeletesOwn user prefix e w bucket_only h =
    rw bucket_only (elim (Bool-cases (truthy e.settings.gcs_bucket)) [
      | inl b ↦ rw b (delete_blobs-DeletesOwn user _ e w h)
      | inr b ↦ rw b h
    ])

-- Where audio is kept in the bucket only, deleting a user's audio deletes no object whose key names
-- another owner, whatever the recordings say and whatever the bucket's listing returns.
pub delete_user_audio-DeletesOwn :
    (user : String) (keys : List String) (e : Env) (w : World)
    → truthy e.settings.local_audio_dir ≡ false
    → DeletesOwn user w.trace
    → DeletesOwn user (delete_user_audio user keys e w).1.trace
unfolding delete_user_audio ◌>>=◌
delete_user_audio-DeletesOwn user keys e w bucket_only h = go (audio_prefix user)
  where
    checked : Bool → String → Exec (Unit {0})
    checked crosses prefix =
        if crosses then raise audio_cleanup else delete_user_audio_sync user prefix

    own : (crosses : Bool) (prefix : String) → DeletesOwn user (checked crosses prefix e w).1.trace
    own true prefix = h
    own false prefix = delete_user_audio_sync-DeletesOwn user prefix e w bucket_only h

    go :
        (r : Result String)
        → DeletesOwn user (continue r (checked (any (foreign user) keys)) e w).1.trace
    go (ok prefix) = own (any (foreign user) keys) prefix
    go (err x) = h
