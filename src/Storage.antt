-- ===== src/Storage.antt =====
-- app/services/storage.py: the layout of audio keys, the deletion of audio, the signed upload and
-- its signer.
pub mod Keys
pub mod Roundtrip
pub mod Ownership
pub mod Signing
use limon_backend.Base.{
  ℕ, String, Bool, true, false, Option, none, some, List, [], ◌∷◌, ◌==◌, ◌||◌, not, any, truthy,
  text_or, join, slash_free, code_free, starts_with, is_none, option_eq, if◌then◌else◌,
}
use limon_backend.Runtime.Errors.{
  Error, Result, ok, err, storage_not_configured, audio_cleanup, library_error,
}
use limon_backend.Runtime.World.{
  Env, Exec, pure, raise, lift, ask, ◌>>=◌, ◌>>◌, emit, settings_of, delete_audio, sign_upload,
}
use limon_backend.Runtime.Wire.{Signer, impersonated, attached}
use limon_backend.Storage.Keys.{record_id_from_audio_key, user_id_from_audio_key}

-- `_audio_prefix`
unfoldable pub audio_prefix : String → Result String
audio_prefix user_id =
    if user_id == ""
      || user_id == "."
      || user_id == ".."
      || not (slash_free user_id)
      || not (code_free 92 user_id)
    then err audio_cleanup
    else ok (join "v0/" (join user_id "/"))

-- The owner that a key names is not this one.
abbrev pub foreign : String → String → Bool
foreign user_id key = not (option_eq (user_id_from_audio_key key) (some user_id))

-- One object or file.
unfoldable pub delete_one : String → Exec (Unit {0})
delete_one key = do
  done ← ask (λ e w. e.deletes_audio w.trace key)
  emit (delete_audio key)
  if done then pure tt else raise audio_cleanup

-- `for path in owner_dir.glob("*.m4a")`
unfoldable pub delete_files : String → List String → Exec (Unit {0})
delete_files prefix [] = pure tt
delete_files prefix (name ∷ names) = do delete_one (join prefix name); delete_files prefix names

-- `for blob in bucket.list_blobs(prefix=prefix)`
unfoldable pub delete_blobs : String → List (Option String) → Exec (Unit {0})
delete_blobs user_id [] = pure tt
delete_blobs user_id (none ∷ names) = raise audio_cleanup
delete_blobs user_id (some name ∷ names) =
    if foreign user_id name
    then raise audio_cleanup
    else do delete_one name; delete_blobs user_id names

-- The local half of `_delete_user_audio_sync`.
unfoldable pub delete_local : String → String → String → Exec (Unit {0})
delete_local root user_id prefix = do
  escaped ← ask (λ e _. e.escapes_root root prefix)
  exists ← ask (λ e w. e.dir_exists w.trace prefix)
  if escaped
      then raise audio_cleanup
      else if exists
      then (do
        names ← ask (λ e w. e.list_files w.trace root prefix)
        delete_files prefix names
        removed ← ask (λ e w. e.removes_dir w.trace prefix)
        if removed then pure tt else raise audio_cleanup)
      else pure tt

-- `_delete_user_audio_sync`
unfoldable pub delete_user_audio_sync : String → String → Exec (Unit {0})
delete_user_audio_sync user_id prefix = do
  settings ← settings_of
  if truthy settings.local_audio_dir
      then delete_local (text_or settings.local_audio_dir "") user_id prefix
      else pure tt
  if truthy settings.gcs_bucket
      then (do
        names ← ask (λ e w. e.list_blobs w.trace (text_or settings.gcs_bucket "") prefix)
        delete_blobs user_id names)
      else pure tt

unfoldable pub delete_user_audio : String → List String → Exec (Unit {0})
delete_user_audio user_id known_keys = do
  prefix ← lift (audio_prefix user_id)
  if any (foreign user_id) known_keys
      then raise audio_cleanup
      else delete_user_audio_sync user_id prefix

-- `for blob in bucket.list_blobs(prefix=object_key)`
unfoldable pub delete_exact : String → List (Option String) → Exec (Unit {0})
delete_exact key [] = pure tt
delete_exact key (none ∷ names) = raise audio_cleanup
delete_exact key (some name ∷ names) =
    let rest = delete_exact key names in if name == key then (do delete_one name; rest) else rest

-- `_delete_audio_sync`
unfoldable pub delete_audio_sync : String → Exec (Unit {0})
delete_audio_sync key = do
  settings ← settings_of
  if truthy settings.local_audio_dir
      then (do
        escaped ← ask (λ e _. e.escapes_root (text_or settings.local_audio_dir "") key)
        if escaped then raise audio_cleanup else delete_one key)
      else pure tt
  if truthy settings.gcs_bucket
      then (do
        names ← ask (λ e w. e.list_blobs w.trace (text_or settings.gcs_bucket "") key)
        delete_exact key names)
      else pure tt

-- The checks of `delete_orphan_audio_object`.
unfoldable pub is_deletable : String → Option String → Bool
unfolding audio_prefix
is_deletable key none = false
is_deletable key (some owner) = elim (audio_prefix owner) [
  | ok p ↦ starts_with p key
  | err _ ↦ false
]

unfoldable pub delete_orphan_audio_object : String → Exec (Unit {0})
unfolding is_deletable
delete_orphan_audio_object key =
    if is_deletable key (user_id_from_audio_key key)
    then delete_audio_sync key
    else raise audio_cleanup

unfoldable pub signed : Option String → Result String
signed none = err storage_not_configured
signed (some url) = ok url

-- `if not signer_email`
abbrev attached_as : Option String → Exec Signer
attached_as email =
    if truthy email then pure (attached (text_or email "")) else raise storage_not_configured

-- `signer_email in (None, "default")`
abbrev is_placeholder : Option String → Bool
is_placeholder email = is_none email || option_eq email (some "default")

abbrev pub or_library_error : {A : Type 0} → Option A → Result A
or_library_error none = err library_error
or_library_error (some a) = ok a

-- The signer that is set, or else the attached account, by its refreshed credentials.
unfoldable pub signer_or_attached : Option String → Exec Signer
signer_or_attached (some account) = pure (impersonated account)
signer_or_attached none = do
  refreshed ← ask (λ e w. e.attached_email w.trace)
  email ← lift (or_library_error refreshed)
  known ← ask (λ e w. e.metadata_email w.trace)
  attached_as (if is_placeholder email then known else email)

-- `_signed_url_signing_kwargs`
unfoldable pub signing_kwargs : Exec Signer
unfolding signer_or_attached
signing_kwargs = do
  credentials ← ask (λ e w. e.default_credentials w.trace)
  settings ← settings_of
  if credentials
      then signer_or_attached settings.gcs_signer_service_account
      else raise library_error

-- `presign_put`, for the bucket that is set.
unfoldable pub presign_in : Option String → String → String → Exec String
unfolding signed signing_kwargs
presign_in none key content_type = raise storage_not_configured
presign_in (some bucket) key content_type = do
  settings ← settings_of
  signer ← signing_kwargs
  url ←
      ask (λ e w. e.sign w.trace bucket key content_type settings.gcs_signed_url_ttl_seconds signer)
  emit (sign_upload key)
  lift (signed url)

unfoldable pub presign_put : String → String → Exec String
presign_put key content_type = do
  settings ← settings_of
  presign_in settings.gcs_bucket key content_type
