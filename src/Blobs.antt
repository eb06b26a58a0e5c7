-- ===== src/Blobs.antt =====
-- The class GCSBlobStorage of app/services/storage.py and scripts/smoke_gcs.py, over a bucket service
-- that is a parameter.
pub mod Smoke
use limon_backend.Base.{
  ℕ, String, Bool, true, false, Option, none, some, List, is_blank, text_or, ◌==◌, ◌||◌,
  if◌then◌else◌,
}

pub data BlobError : Type 0 where
  -- ValueError, StorageNotConfiguredError, an exception of the service's library, RuntimeError
  value_error storage_not_configured service_error runtime_error : BlobError

-- What the service says of an object that it has taken.
pub record Blob : Type 0 where
  pub generation : Option ℕ
  pub size : Option ℕ
  pub content_type : Option String

-- The service, over states of its own: a call answers, or raises and leaves the state as it was.
pub record Service (S : Type 0) : Type 0 where
  -- a bucket, a name, the bytes and a content type; refused where the name is taken
  pub upload_if_absent : S → String → String → List ℕ → String → Option (Blob × S)
  pub download_bytes : S → String → String → Option (List ℕ)
  -- refused where the object has another generation
  pub delete_generation : S → String → String → ℕ → Option S

pub record StoredBlob : Type 0 where
  pub bucket : String
  pub name : String
  pub generation : Option ℕ
  pub size : Option ℕ
  pub content_type : Option String

pub data BlobResult (A : Type 0) : Type 0 where
  ok : A → BlobResult A
  err : BlobError → BlobResult A

-- `bucket_name.strip()` is empty
abbrev check_bucket : String → BlobResult String
check_bucket bucket = if is_blank bucket then err value_error else ok bucket

-- `get_blob_storage`, and the class's `__init__`: the bucket
unfoldable pub get_blob_storage : Option String → BlobResult String
get_blob_storage none = err storage_not_configured
get_blob_storage (some bucket) = check_bucket bucket

-- `_validate_name`
abbrev bad_name : String → Bool
bad_name name = name == "" || is_blank name

module _ {S : Type 0} (service : Service S) (bucket : String) where
  abbrev pub stored_blob : String → String → Blob → StoredBlob
  stored_blob name content_type b = record {
    bucket = bucket;
    name = name;
    generation = b.generation;
    size = b.size;
    content_type = some (text_or b.content_type content_type);
  }

  abbrev pub uploaded : S → String → String → Option (Blob × S) → BlobResult StoredBlob × S
  uploaded s name content_type none = (err service_error, s)
  uploaded s name content_type (some (b, s')) = (ok (stored_blob name content_type b), s')

  unfoldable pub upload : String → List ℕ → String → S → BlobResult StoredBlob × S
  upload name bytes content_type s =
      if bad_name name || is_blank content_type
      then (err value_error, s)
      else uploaded s name content_type (service.upload_if_absent s bucket name bytes content_type)

  abbrev pub downloaded : Option (List ℕ) → BlobResult (List ℕ)
  downloaded none = err service_error
  downloaded (some bytes) = ok bytes

  unfoldable pub download_blob : String → S → BlobResult (List ℕ)
  download_blob name s =
      if bad_name name then err value_error else downloaded (service.download_bytes s bucket name)

  abbrev pub deleted : S → Option S → BlobResult (Unit {0}) × S
  deleted s none = (err service_error, s)
  deleted s (some s') = (ok tt, s')

  unfoldable pub delete_blob : String → ℕ → S → BlobResult (Unit {0}) × S
  delete_blob name generation s =
      if bad_name name
      then (err value_error, s)
      else deleted s (service.delete_generation s bucket name generation)
