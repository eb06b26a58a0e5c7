-- ===== src/Storage/Keys.antt =====
-- The audio keys of app/services/storage.py, `v0/{userId}/{recordId}.m4a`.
use limon_backend.Base.{
  String, Option, none, some, List, [], ◌∷◌, ◌==◌, join, split_slash, strip_suffix, if◌then◌else◌,
  is_none,
}

unfoldable pub audio_object_key : String → String → String
audio_object_key user_id record_id =
    join "v0" (join "/" (join user_id (join "/" (join record_id ".m4a"))))

-- `s or None`
unfoldable pub nonempty : Option String → Option String
nonempty none = none
nonempty (some s) = if s == "" then none else some s

unfoldable pub record_id_of_parts : List String → Option String
unfolding nonempty
record_id_of_parts (prefix ∷ owner ∷ stem ∷ []) =
    if prefix == "v0" then nonempty (strip_suffix ".m4a" stem) else none
record_id_of_parts _ = none

unfoldable pub record_id_from_audio_key : String → Option String
unfolding record_id_of_parts
record_id_from_audio_key key = record_id_of_parts (split_slash key)

unfoldable pub user_id_of_parts : List String → Option String
unfolding record_id_of_parts nonempty
user_id_of_parts (prefix ∷ owner ∷ stem ∷ []) =
    if is_none (record_id_of_parts (prefix ∷ owner ∷ stem ∷ []))
    then none
    else nonempty (some owner)
user_id_of_parts _ = none

unfoldable pub user_id_from_audio_key : String → Option String
unfolding user_id_of_parts
user_id_from_audio_key key = user_id_of_parts (split_slash key)
