-- ===== src/DemoData/Tagged.antt =====
-- The tags of the demo data of app/services/demo_seed.py, against the names of its table.
use limon_backend.Base.{
  ℕ, String, Bool, true, Option, none, some, List, [], ◌∷◌, ◌++◌, ◌≡◌, refl, ap, ◌∙◌, arith, ◌==◌,
  eq_refl, eq_iff, ◌||◌, All, All-map, contains, map, Bool-cases, inl, inr,
}
use mathlib.Core.List.{append_assoc}
use limon_backend.Models.{Tag, Db}
use limon_backend.Models.Table.{find}
use limon_backend.Runtime.Errors.{ok}
use limon_backend.Runtime.World.{World, Trace, modify, ◌>>=◌}
use limon_backend.Runtime.Triple.{Triple, Triple-pure, Triple-ask, Triple-bind, Triple-after}
use limon_backend.Tags.{is_named, add_tag, get_tag_by_name}
use limon_backend.Tags.Upsert.{find-added}
use limon_backend.DemoData.Seed.{TagMap, tag_or_new, seed_tags, tag_id_of, tag_ids_of}

pub find-grown :
    (p : Tag → Bool) (xs ys : List Tag) (t : Tag) → find p xs ≡ some t → find p (xs ++ ys) ≡ some t
unfolding find
find-grown p [] ys t h = ground arith
find-grown p (x ∷ xs) ys t h = ground (arith, find-grown p xs ys t)

abbrev pub name_of : {A : Type 0} → String × A → String
name_of p = p.0

-- An entry of the map is the tag that the user has by that name.
abbrev pub IsKnown : String → List Tag → String × Tag → Type 0
IsKnown user ts (n, t) = find (is_named user n) ts ≡ some t

-- Each name of the map or of the table is in the new map.
abbrev pub Covers : TagMap → List (String × String) → TagMap → Type 0
Covers tags rest tags' =
    (n : String)
    → (contains n (map name_of tags) || contains n (map name_of rest)) ≡ true
    → contains n (map name_of tags') ≡ true

Covers-cons :
    (name color : String) (t : Tag) (tags : TagMap) (rest : List (String × String)) (tags' : TagMap)
    → Covers ((name, t) ∷ tags) rest tags'
    → Covers tags ((name, color) ∷ rest) tags'
Covers-cons name color t tags rest tags' c n h = ground (arith, c n, h)

module _ (user : String) (d : Db) (start : Trace) where
  pub record Prepared (tags : TagMap) (w : World) : Type 0 where
    pub same_trace : w.trace ≡ start
    pub more : List Tag
    pub grown : w.db ≡ record d { tags = d.tags ++ more }
    pub known : All (IsKnown user w.db.tags) tags

  -- The tag that was looked up.
  abbrev Looked : TagMap → String → Option Tag → World → Type 0
  Looked tags name found w = Prepared tags w × (find (is_named user name) w.db.tags ≡ found)

  tag_or_new-Prepared :
      (tags : TagMap) (name color : String) (drawn : ℕ) (found : Option Tag)
      → Triple
          (Looked tags name found)
          (tag_or_new user name color drawn found)
          (λ p. Prepared ((name, p.0) ∷ tags))
          (λ _ _. ⊥)
  unfolding tag_or_new modify ◌>>=◌
  tag_or_new-Prepared tags name color drawn (some t) = Triple-pure _ (λ w (h, f). record {
    same_trace = h.same_trace;
    more = h.more;
    grown = h.grown;
    known = (f, h.known);
  })
  tag_or_new-Prepared tags name color drawn none = record {
    at = λ e w (h, f).
        let t : Tag = record {
          id = e.new_id w.trace drawn;
          user_id = user;
          name = name;
          color = some color;
        } in
        record {
          same_trace = h.same_trace;
          more = h.more ++ t ∷ [];
          grown =
              ap (add_tag t) h.grown
              ∙ ap (λ ts. record d { tags = ts }) (append_assoc d.tags h.more (t ∷ []));
          known = (
            find-added (is_named user name) w.db.tags t f
                (ground (arith, eq_refl user, eq_refl name)),
            All-map _ _ tags (λ p k. find-grown (is_named user p.0) w.db.tags (t ∷ []) p.1 k)
                h.known,
          );
        };
  }

  pub seed_tags-Prepared :
      (tags : TagMap) (drawn : ℕ) (rest : List (String × String))
      → Triple
          (Prepared tags)
          (seed_tags user tags drawn rest)
          (λ p w. Prepared p.0 w × Covers tags rest p.0)
          (λ _ _. ⊥)
  unfolding seed_tags get_tag_by_name
  seed_tags-Prepared tags drawn [] = Triple-pure _ (λ w h. (h, λ n k. ground (arith, k)))
  seed_tags-Prepared tags drawn ((name, color) ∷ rest) =
      Triple-bind (Looked tags name) (Triple-ask _ (λ e w h. (h, refl))) λ found.
        Triple-bind (λ p. Prepared ((name, p.0) ∷ tags))
          (tag_or_new-Prepared tags name color drawn found)
          λ p.
            Triple-after _ _ (seed_tags-Prepared ((name, p.0) ∷ tags) p.1 rest)
              (λ q w h. (h.0, Covers-cons name color p.0 tags rest q.0 h.1)) (λ x w h. h)

-- The ids are those of the user's tags of these names.
abbrev pub NamedBy : String → List Tag → List String → List String → Type 0
NamedBy user ts [] [] = Unit
NamedBy user ts (name ∷ names) (id ∷ ids) =
    ((t : Tag) × (find (is_named user name) ts ≡ some t) × (t.id ≡ id)) × NamedBy user ts names ids
NamedBy user ts _ _ = ⊥

-- What a name of the map stands for.
tag_id_of-known :
    (user : String) (ts : List Tag) (tags : TagMap) (name : String)
    → All (IsKnown user ts) tags
    → contains name (map name_of tags) ≡ true
    → (t : Tag) × (tag_id_of tags name ≡ ok t.id) × (find (is_named user name) ts ≡ some t)
unfolding tag_id_of
tag_id_of-known user ts [] name k h = absurd (ground (arith, h))
tag_id_of-known user ts ((n, t) ∷ tags) name k h = elim (Bool-cases (n == name)) [
  | inl same ↦ (t, rw same refl, rw (← (eq_iff n name).0 same) k.0)
  | inr other ↦
      let r = tag_id_of-known user ts tags name k.1 (rw other at h) in (r.0, rw other r.1, r.2)
]

pub tag_ids_of-known :
    (user : String) (ts : List Tag) (tags : TagMap) (names : List String)
    → All (IsKnown user ts) tags
    → All (λ name. contains name (map name_of tags) ≡ true) names
    → (ids : List String) × (tag_ids_of tags names ≡ ok ids) × NamedBy user ts names ids
unfolding tag_ids_of
tag_ids_of-known user ts tags [] k h = ([], refl, tt)
tag_ids_of-known user ts tags (name ∷ names) k h =
    let (t, e, f) = tag_id_of-known user ts tags name k h.0 in
    let (ids, es, fs) = tag_ids_of-known user ts tags names k h.1 in
    (t.id ∷ ids, rw e (rw es refl), ((t, f, refl), fs))
