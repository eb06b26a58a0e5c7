-- ===== src/Examples/Bucket.antt =====
-- A bucket that holds one object, by its name, and the smoke test on it.
use limon_backend.Base.{
  true, is_some, ◌↔◌, ℕ, String, Option, none, some, List, [], ◌∷◌, ◌≡◌, refl, eqb, ◌==◌, ◌&&◌,
  is_blank, is_space, if◌then◌else◌,
}
use limon_backend.Blobs.{Blob, Service, ok}
use limon_backend.Blobs.Smoke.{smoke, smoke_lem, smoke_name}

abbrev Slot : Type 0
Slot = Option (String × List ℕ)

abbrev first_version : Blob
first_version = record { generation = some 1; size = none; content_type = none }

abbrev put : Slot → String → String → List ℕ → String → Option (Blob × Slot)
put none bucket name bytes content_type = some (first_version, some (name, bytes))
put (some _) bucket name bytes content_type = none

abbrev read : Slot → String → String → Option (List ℕ)
read none bucket name = none
read (some (n, bytes)) bucket name = if n == name then some bytes else none

abbrev remove : Slot → String → String → ℕ → Option Slot
remove none bucket name g = none
remove (some (n, bytes)) bucket name g = if n == name && eqb g 1 then some none else none

abbrev one_slot : Service Slot
one_slot = record { upload_if_absent = put; download_bytes = read; delete_generation = remove }

smoke_lem_example : ((smoke one_slot (some "audio") "id" (7 ∷ []) none).0 ≡ ok tt) ↔ (
    (read (some (smoke_name "id", 7 ∷ [])) "audio" (smoke_name "id") ≡ some (7 ∷ []))
    × (is_some (remove (some (smoke_name "id", 7 ∷ [])) "audio" (smoke_name "id") 1) ≡ true))
unfolding is_blank is_space
smoke_lem_example = smoke_lem one_slot "audio" "id" (7 ∷ []) none refl
