-- ===== src/Blobs/Smoke.antt =====
-- `main` of scripts/smoke_gcs.py: an object that is uploaded, read back and deleted.
use limon_backend.Base.{
  ℕ, String, Bool, true, false, Option, none, some, List, [], ◌∷◌, ◌≡◌, refl, arith, ◌&&◌, ◌||◌,
  Bool-cases, inl, inr, ap, eq_iff, ◌==◌, eqb, join, is_blank, is_some, ◌↔◌, ◌∙◌, is_space,
  if◌then◌else◌,
}
use limon_backend.Blobs.{
  runtime_error, Blob, Service, StoredBlob, BlobResult, ok, err, get_blob_storage, upload,
  download_blob, delete_blob, uploaded, downloaded, deleted, stored_blob,
}

-- `downloaded != payload` is false
abbrev pub same_bytes : List ℕ → List ℕ → Bool
same_bytes [] [] = true
same_bytes (x ∷ xs) (y ∷ ys) = eqb x y && same_bytes xs ys
same_bytes _ _ = false

abbrev pub smoke_name : String → String
smoke_name id = join "smoke-tests/" (join id ".txt")

abbrev pub text_plain : String
text_plain = "text/plain; charset=utf-8"

module _ {S : Type 0} (service : Service S) where
  -- The rest of the `try`, after the upload.
  abbrev compared : List ℕ → BlobResult (List ℕ) → BlobResult (Unit {0})
  compared payload (err x) = err x
  compared payload (ok bytes) = if same_bytes bytes payload then ok tt else err runtime_error

  -- The `finally` of an upload that was taken: an exception of the deletion takes the other's place.
  abbrev deleted_or : BlobResult (Unit {0}) → BlobResult (Unit {0}) × S → BlobResult (Unit {0}) × S
  deleted_or r (ok _, s) = (r, s)
  deleted_or r (err x, s) = (err x, s)

  abbrev cleaned :
      String → StoredBlob → BlobResult (Unit {0}) → S → Option ℕ → BlobResult (Unit {0}) × S
  cleaned bucket b r s none = (r, s)
  cleaned bucket b r s (some g) = deleted_or r (delete_blob service bucket b.name g s)

  abbrev after_upload :
      String → String → List ℕ → BlobResult StoredBlob × S → BlobResult (Unit {0}) × S
  after_upload bucket name payload (err x, s) = (err x, s)
  after_upload bucket name payload (ok b, s) =
      cleaned bucket b (compared payload (download_blob service bucket name s)) s b.generation

  abbrev smoke_in : BlobResult String → String → List ℕ → S → BlobResult (Unit {0}) × S
  smoke_in (err x) id payload s = (err x, s)
  smoke_in (ok bucket) id payload s =
      after_upload bucket (smoke_name id) payload
        (upload service bucket (smoke_name id) payload text_plain s)

  unfoldable pub smoke : Option String → String → List ℕ → S → BlobResult (Unit {0}) × S
  unfolding get_blob_storage upload download_blob delete_blob
  smoke setting id payload s = smoke_in (get_blob_storage setting) id payload s

same_bytes_self : (xs : List ℕ) → same_bytes xs xs ≡ true
same_bytes_self [] = refl
same_bytes_self (x ∷ xs) = ground (arith, same_bytes_self xs)

named-blank : (s : String) → is_blank s ≡ false → (s == "" || is_blank s) ≡ false
unfolding is_blank
named-blank s h = elim (Bool-cases (s == "")) [
  | inl e ↦ absurd (ground (arith, ap is_blank ((eq_iff s "").0 e), h))
  | inr n ↦ ground (arith, n, h)
]

smoke_name-blank : (id : String) → is_blank (smoke_name id) ≡ false
unfolding join is_blank is_space
smoke_name-blank id = refl

object_name_lem : (id : String) → (smoke_name id == "" || is_blank (smoke_name id)) ≡ false
object_name_lem id = named-blank (smoke_name id) (smoke_name-blank id)

text_plain_lem : is_blank text_plain ≡ false
unfolding is_blank is_space
text_plain_lem = refl

same_bytes_iff : (xs ys : List ℕ) → (same_bytes xs ys ≡ true) ↔ (xs ≡ ys)
same_bytes_iff [] [] = (λ h. refl, λ h. refl)
same_bytes_iff [] (y ∷ ys) = (λ h. absurd (ground (arith, h)), λ h. absurd (ground (arith, h)))
same_bytes_iff (x ∷ xs) [] = (λ h. absurd (ground (arith, h)), λ h. absurd (ground (arith, h)))
same_bytes_iff (x ∷ xs) (y ∷ ys) =
    let rest = same_bytes_iff xs ys in
    (
      λ h.
          let heads : x ≡ y = ground (arith, h) in
          ap (λ z. z ∷ xs) heads ∙ ap (λ zs. y ∷ zs) (rest.0 (ground (arith, h))),
      λ h. ap (λ zs. same_bytes zs (y ∷ ys)) h ∙ same_bytes_self (y ∷ ys),
    )

module _ {S : Type 0} (service : Service S) (bucket id : String) (payload : List ℕ) where
  -- The service deletes what it took, where it gave it a generation.
  abbrev pub Deletes : Option ℕ → S → Type 0
  Deletes none s = Unit
  Deletes (some g) s = is_some (service.delete_generation s bucket (smoke_name id) g) ≡ true

  -- The service takes the object, gives back just the bytes that were sent, and deletes it.
  abbrev pub Serves : Option (Blob × S) → Type 0
  Serves none = ⊥
  Serves (some (b, s)) =
      (service.download_bytes s bucket (smoke_name id) ≡ some payload) × Deletes b.generation s

  compared_iff :
      (o : Option (List ℕ))
      → (compared service payload (downloaded service bucket o) ≡ ok tt) ↔ (o ≡ some payload)
  compared_iff none = (λ h. absurd (ground (arith, h)), λ h. absurd (ground (arith, h)))
  compared_iff (some bytes) = elim (Bool-cases (same_bytes bytes payload)) [
    | inl h ↦ rw h (λ _. ap some ((same_bytes_iff bytes payload).0 h), λ _. refl)
    | inr h ↦ rw h (
      λ k. absurd (ground (arith, k)),
      λ k.
          let same : bytes ≡ payload = ground (arith, k) in
          absurd (ground (arith, h, (same_bytes_iff bytes payload).1 same)),
    )
  ]

  deleted_iff :
      (r : BlobResult (Unit {0})) (s : S) (o : Option S)
      → ((deleted_or service r (deleted service bucket s o)).0 ≡ ok tt)
        ↔ ((r ≡ ok tt) × (is_some o ≡ true))
  deleted_iff r s none = (λ h. absurd (ground (arith, h)), λ h. absurd (ground (arith, h.1)))
  deleted_iff r s (some s') = (λ h. (h, refl), λ h. h.0)

  cleaned_iff :
      (b : StoredBlob) (r : BlobResult (Unit {0})) (s : S)
      → b.name ≡ smoke_name id
      → ((cleaned service bucket b r s b.generation).0 ≡ ok tt)
        ↔ ((r ≡ ok tt) × Deletes b.generation s)
  unfolding delete_blob
  cleaned_iff b r s named = by_generation b.generation
    where
      by_generation :
          (g : Option ℕ)
          → ((cleaned service bucket b r s g).0 ≡ ok tt) ↔ ((r ≡ ok tt) × Deletes g s)
      by_generation none = (λ h. (h, tt), λ h. h.0)
      by_generation (some g) = rw named (rw (object_name_lem id) (deleted_iff r s _))

  taken_iff :
      (s : S) (o : Option (Blob × S))
      → ((after_upload service bucket
            (smoke_name id)
            payload
            (uploaded service bucket s (smoke_name id) text_plain o)).0
          ≡ ok tt)
        ↔ Serves o
  unfolding download_blob
  taken_iff s none = (λ h. absurd (ground (arith, h)), λ h. absurd h)
  taken_iff s (some (b, s')) =
      let stored = stored_blob service bucket (smoke_name id) text_plain b in
      let read = compared_iff (service.download_bytes s' bucket (smoke_name id)) in
      let clean = cleaned_iff stored _ s' refl in
      rw (object_name_lem id)
        (λ h. (read.0 (clean.0 h).0, (clean.0 h).1), λ h. clean.1 (read.1 h.0, h.1))

  -- The smoke test of a bucket that is set passes exactly where the service takes the object, gives
  -- back just the bytes that were sent, and, where it gave the object a generation, deletes it.
  pub smoke_lem :
      (s : S)
      → is_blank bucket ≡ false
      → ((smoke service (some bucket) id payload s).0 ≡ ok tt)
        ↔ Serves (service.upload_if_absent s bucket (smoke_name id) payload text_plain)
  unfolding smoke get_blob_storage upload
  smoke_lem s set = rw set (rw (object_name_lem id) (rw text_plain_lem (taken_iff s _)))
