-- ===== src/Tagging/Run/Listed.antt =====
-- Which ids pass the checks of tagging.
use limon_backend.Base.{
  zero, suc, dedupe_from, ℕ, String, Bool, true, false, List, [], ◌∷◌, ◌≡◌, arith, ◌==◌, ◌&&◌, inl,
  inr, Bool-cases, All, contains, keep, take, drop, map, any, dedupe,
}
use limon_backend.Models.{Tag, Db}
use limon_backend.Tags.{order_by_name, insert_by_name}
use limon_backend.Tagger.{invented}
use limon_backend.Tagger.Prompt.{tag_id}
use limon_backend.Tagging.Run.{offered}

-- Every id is the id of a tag that the user owns.
abbrev pub IsOwned : String → Db → String → Type 0
IsOwned user d id = any (λ (t : Tag). t.user_id == user && t.id == id) d.tags ≡ true

module _ (P : String → Type 0) where
  All-dedupe_from : (seen ids : List String) → All P ids → All P (dedupe_from seen ids)
  unfolding dedupe_from
  All-dedupe_from seen [] h = tt
  All-dedupe_from seen (x ∷ ids) h = elim (Bool-cases (contains x seen)) [
    | inl b ↦ rw b (All-dedupe_from seen ids h.1)
    | inr b ↦ rw b (h.0, All-dedupe_from (x ∷ seen) ids h.1)
  ]

  pub All-dedupe : (ids : List String) → All P ids → All P (dedupe ids)
  unfolding dedupe
  All-dedupe ids h = All-dedupe_from [] ids h

  pub All-not_invented :
      (allowed ids : List String)
      → ((id : String) → contains id allowed ≡ true → P id)
      → invented allowed ids ≡ false
      → All P ids
  All-not_invented allowed [] f h = tt
  All-not_invented allowed (x ∷ ids) f h =
      (f x (ground arith), All-not_invented allowed ids f (ground arith))

-- The tags that a listing shows are its owner's.
module _ (user id : String) where
  has : Tag → Bool
  has t = t.user_id == user && t.id == id

  unfoldable pub shown : List Tag → Bool
  shown ts = contains id (map tag_id (map offered ts))

  shown-insert :
      (before : String → String → Bool) (t : Tag) (ts : List Tag)
      → shown (insert_by_name before t ts) ≡ true
      → shown (t ∷ ts) ≡ true
  unfolding insert_by_name shown
  shown-insert before t [] h = h
  shown-insert before t (u ∷ ts) h = ground (arith, shown-insert before t ts)

  shown-order :
      (before : String → String → Bool) (ts : List Tag)
      → shown (order_by_name before ts) ≡ true
      → shown ts ≡ true
  unfolding order_by_name shown
  shown-order before [] h = h
  shown-order before (t ∷ ts) h =
      ground (arith, shown-insert before t (order_by_name before ts), shown-order before ts)

  shown-drop : (n : ℕ) (ts : List Tag) → shown (drop n ts) ≡ true → shown ts ≡ true
  unfolding shown
  shown-drop zero ts h = h
  shown-drop (suc n) [] h = h
  shown-drop (suc n) (t ∷ ts) h = ground (arith, shown-drop n ts)

  shown-take : (n : ℕ) (ts : List Tag) → shown (take n ts) ≡ true → shown ts ≡ true
  unfolding shown
  shown-take zero ts h = ground arith
  shown-take (suc n) [] h = h
  shown-take (suc n) (t ∷ ts) h = ground (arith, shown-take n ts)

  shown-keep :
      (ts : List Tag) → shown (keep (λ (t : Tag). t.user_id == user) ts) ≡ true → any has ts ≡ true
  unfolding shown has
  shown-keep [] h = h
  shown-keep (t ∷ ts) h = ground (arith, shown-keep ts)

  pub listed-IsOwned :
      (limit : ℕ) (before : String → String → Bool) (d : Db)
      → shown (
          take limit (drop 0 (order_by_name before (keep (λ (t : Tag). t.user_id == user) d.tags))))
        ≡ true
      → IsOwned user d id
  unfolding has
  listed-IsOwned limit before d h =
      shown-keep d.tags (shown-order before _ (shown-drop 0 _ (shown-take limit _ h)))
