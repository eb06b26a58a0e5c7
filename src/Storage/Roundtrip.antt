-- ===== src/Storage/Roundtrip.antt =====
-- The audio keys of app/services/storage.py, made and read back.
use limon_backend.Base.{
  String, true, false, Option, none, some, List, [], ◌∷◌, ◌≡◌, refl, sym, ◌==◌, ◌∙◌, ap, join,
  eq_iff, Bool-cases, inl, inr, slash_join, slash_join-split_slash, join-strip_suffix, split_slash,
  slash_free, split_slash-join, split_slash-slash_free, slash_free-join, strip_suffix-join, arith,
}
use limon_backend.Storage.Keys.{
  audio_object_key, record_id_from_audio_key, user_id_from_audio_key, record_id_of_parts,
  user_id_of_parts, nonempty,
}

module _ (user_id record_id : String) (u : slash_free user_id ≡ true)
    (r : slash_free record_id ≡ true) where
  split_key :
      split_slash (audio_object_key user_id record_id) ≡ "v0" ∷ user_id ∷ join record_id ".m4a" ∷ []
  unfolding audio_object_key
  split_key =
      split_slash-join "v0" _ (unfold slash_free in refl)
      ∙ ap (λ ps. "v0" ∷ ps) (split_slash-join user_id _ u)
      ∙ ap (λ ps. "v0" ∷ user_id ∷ ps)
          (split_slash-slash_free (join record_id ".m4a")
            (slash_free-join record_id ".m4a" r (unfold slash_free in refl)))

  -- A key that was made for two texts, neither of them empty or with a slash, is read back: its
  -- record id and its owner are the ones that it was made for.
  pub audio_object_key-read :
      (record_id == "") ≡ false
      → (user_id == "") ≡ false
      → (record_id_from_audio_key (audio_object_key user_id record_id) ≡ some record_id)
        × (user_id_from_audio_key (audio_object_key user_id record_id) ≡ some user_id)
  unfolding record_id_from_audio_key user_id_from_audio_key record_id_of_parts user_id_of_parts
      nonempty
  audio_object_key-read nr nu =
      rw split_key (rw (strip_suffix-join record_id ".m4a") (ground arith))

nonempty-some : (o : Option String) (r : String) → nonempty o ≡ some r → o ≡ some r
unfolding nonempty
nonempty-some none r h = h
nonempty-some (some s) r h = ground (arith, h)

-- The three parts of a key that is read.
read_parts :
    (ps : List String) (u r : String)
    → record_id_of_parts ps ≡ some r
    → user_id_of_parts ps ≡ some u
    → ps ≡ "v0" ∷ u ∷ join r ".m4a" ∷ []
unfolding record_id_of_parts user_id_of_parts
read_parts (p ∷ o ∷ s ∷ []) u r h k = elim (Bool-cases (p == "v0")) [
  | inl v ↦
      let stem = join-strip_suffix ".m4a" s r (nonempty-some _ r (rw v at h)) in
      let owner = nonempty-some (some o) u (rw (v, rw v at h) at k) in
      rw ((eq_iff p "v0").0 v) (rw stem (ground (arith, owner)))
  | inr n ↦ absurd (ground (arith, rw n at h))
]
read_parts _ u r h k = absurd (ground (arith, h))

-- Only keys of the layout are read: a key that is read to a record id and an owner is the key that is
-- made for them.
pub read-audio_object_key :
    (key u r : String)
    → record_id_from_audio_key key ≡ some r
    → user_id_from_audio_key key ≡ some u
    → key ≡ audio_object_key u r
unfolding record_id_from_audio_key user_id_from_audio_key audio_object_key
read-audio_object_key key u r h k =
    sym (slash_join-split_slash key)
    ∙ rw (read_parts (split_slash key) u r h k) (unfold slash_join join in refl)
