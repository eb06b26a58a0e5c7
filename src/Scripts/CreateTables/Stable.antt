-- ===== src/Scripts/CreateTables/Stable.antt =====
-- `render` of scripts/supabase/gen_create_tables.py, and the order in which a set yields its indexes.
use text.Mathlib.TextEquality.{Char-path}
use limon_backend.Base.{
  String, true, false, List, [], ◌∷◌, ◌≡◌, refl, ap, ◌∙◌, sym, arith, ◌==◌, eq_iff, Bool-cases, inl,
  inr,
}
use limon_backend.Scripts.CreateTables.{
  Index, Table, text_le, index_key, insert_index, sort_indexes, parts_of, render,
}

text_le_total : (s t : String) → text_le s t ≡ false → text_le t s ≡ true
unfolding text_le
text_le_total String.[] t h = absurd (ground (arith, h))
text_le_total (String.◌∷◌ c s) String.[] h = refl
text_le_total (String.◌∷◌ c s) (String.◌∷◌ d t) h = ground (arith, h, text_le_total s t)

text_le_trans : (s t u : String) → text_le s t ≡ true → text_le t u ≡ true → text_le s u ≡ true
unfolding text_le
text_le_trans String.[] t u h k = refl
text_le_trans (String.◌∷◌ c s) String.[] u h k = absurd (ground (arith, h))
text_le_trans (String.◌∷◌ c s) (String.◌∷◌ d t) String.[] h k = absurd (ground (arith, k))
text_le_trans (String.◌∷◌ c s) (String.◌∷◌ d t) (String.◌∷◌ e u) h k =
    ground (arith, h, k, text_le_trans s t u)

text_le_antisym : (s t : String) → text_le s t ≡ true → text_le t s ≡ true → s ≡ t
unfolding text_le
text_le_antisym String.[] String.[] h k = refl
text_le_antisym String.[] (String.◌∷◌ d t) h k = absurd (ground (arith, k))
text_le_antisym (String.◌∷◌ c s) String.[] h k = absurd (ground (arith, h))
text_le_antisym (String.◌∷◌ c s) (String.◌∷◌ d t) h k =
    rw (Char-path c d (ground (arith, h, k)))
      (ap (λ r. String.◌∷◌ d r) (text_le_antisym s t (ground (arith, h, k)) (ground (arith, h, k))))

-- Two indexes of different names.
abbrev pub Differ : Index → Index → Type 0
Differ i j = (index_key i == index_key j) ≡ false

one_way :
    (i j : Index)
    → Differ i j
    → text_le (index_key i) (index_key j) ≡ true
    → text_le (index_key j) (index_key i) ≡ false
one_way i j d h = elim (Bool-cases (text_le (index_key j) (index_key i))) [
  | inl k ↦
      let same = text_le_antisym (index_key i) (index_key j) h k in
      absurd (ground (arith, d, (eq_iff (index_key i) (index_key j)).1 same))
  | inr k ↦ k
]

insert_comm :
    (i j : Index) (l : List Index)
    → Differ i j
    → text_le (index_key i) (index_key j) ≡ true
    → insert_index i (insert_index j l) ≡ insert_index j (insert_index i l)
unfolding insert_index
insert_comm i j [] d h = ground (arith, h, one_way i j d h)
insert_comm i j (k ∷ l) d h = ground (
  arith,
  h,
  one_way i j d h,
  insert_comm i j l d h,
  text_le_trans (index_key i) (index_key j) (index_key k) h,
  text_le_total (index_key i) (index_key k),
  text_le_total (index_key j) (index_key k),
)

insert_swap :
    (i j : Index) (l : List Index)
    → Differ i j
    → insert_index i (insert_index j l) ≡ insert_index j (insert_index i l)
insert_swap i j l d = elim (Bool-cases (text_le (index_key i) (index_key j))) [
  | inl h ↦ insert_comm i j l d h
  | inr h ↦
      let d' : Differ j i =
        ground (arith, d, eq_iff (index_key i) (index_key j), eq_iff (index_key j) (index_key i)) in
      sym (insert_comm j i l d' (text_le_total (index_key i) (index_key j) h))
]

-- The same indexes in another order, where indexes of one name do not change places.
pub data Reorders : List Index → List Index → Type 0 where
  same : {l : List Index} → Reorders l l
  skip : {l m : List Index} (i : Index) → Reorders l m → Reorders (i ∷ l) (i ∷ m)
  swap : {l : List Index} (i j : Index) → Differ i j → Reorders (i ∷ j ∷ l) (j ∷ i ∷ l)
  chain : {l m n : List Index} → Reorders l m → Reorders m n → Reorders l n

sort_indexes-Reorders : {l m : List Index} → Reorders l m → sort_indexes l ≡ sort_indexes m
unfolding sort_indexes
sort_indexes-Reorders same = refl
sort_indexes-Reorders (skip i r) = ap (insert_index i) (sort_indexes-Reorders r)
sort_indexes-Reorders (swap {l} i j d) = insert_swap i j (sort_indexes l) d
sort_indexes-Reorders (chain r r') = sort_indexes-Reorders r ∙ sort_indexes-Reorders r'

-- The same tables, with the indexes of each in any order.
pub data SameTables : List Table → List Table → Type 0 where
  done : SameTables [] []
  table :
      {ts us : List Table} {l m : List Index} (create : String)
      → Reorders l m
      → SameTables ts us
      → SameTables
          (record { create = create; indexes = l } ∷ ts)
          (record { create = create; indexes = m } ∷ us)

parts_of-SameTables : {ts us : List Table} → SameTables ts us → parts_of ts ≡ parts_of us
unfolding parts_of
parts_of-SameTables done = refl
parts_of-SameTables (table create r more) =
    rw (sort_indexes-Reorders r) (rw (parts_of-SameTables more) refl)

-- Regeneration is stable. For the same date and the same tables, the rendered text does not depend on
-- the orders in which the sets of indexes are read, where indexes of one name keep their places.
pub render-SameTables :
    (date : String) (ts us : List Table) → SameTables ts us → render date ts ≡ render date us
unfolding render
render-SameTables date ts us same_tables = rw (parts_of-SameTables same_tables) refl
