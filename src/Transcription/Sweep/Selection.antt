-- ===== src/Transcription/Sweep/Selection.antt =====
-- Which rows a recovery pass selects.
use limon_backend.Base.{
  ℕ, zero, suc, ◌≤◌, Bool, List, [], ◌∷◌, ◌≡◌, arith, All, All-map, take, keep, length, leb, ◌&&◌,
  Bool-cases, inl, inr, drop, ◌++◌, ap, ◌∙◌, refl,
}
use Prim.Native.Nat.{min}
use limon_backend.Models.{Recording, Db, State}
use limon_backend.Models.Table.{count_where}
use limon_backend.Transcription.Sweep.{insert_by_age, order_by_age, stale, in_state, stale_rows}

-- No later row was updated before.
abbrev pub IsOldest : Recording → List Recording → Type 0
IsOldest r rs = All (λ (s : Recording). r.updated_at ≤ s.updated_at) rs

abbrev pub IsByAge : List Recording → Type 0
IsByAge [] = Unit
IsByAge (r ∷ rs) = IsOldest r rs × IsByAge rs

module _ (P : Recording → Type 0) where
  All-insert : (r : Recording) (rs : List Recording) → P r → All P rs → All P (insert_by_age r rs)
  unfolding insert_by_age
  All-insert r [] p h = (p, tt)
  All-insert r (s ∷ rs) p h = elim (Bool-cases (leb r.updated_at s.updated_at)) [
    | inl b ↦ rw b (p, h)
    | inr b ↦ rw b (h.0, All-insert r rs p h.1)
  ]

insert-IsByAge : (r : Recording) (rs : List Recording) → IsByAge rs → IsByAge (insert_by_age r rs)
unfolding insert_by_age
insert-IsByAge r [] h = (tt, tt)
insert-IsByAge r (s ∷ rs) h = elim (Bool-cases (leb r.updated_at s.updated_at)) [
  | inl b ↦
      rw b (
        (ground arith, All-map (λ t. s.updated_at ≤ t.updated_at) _ rs (λ t k. ground arith) h.0),
        h,
      )
  | inr b ↦ rw b (
    All-insert (λ t. s.updated_at ≤ t.updated_at) r rs (ground arith) h.0,
    insert-IsByAge r rs h.1,
  )
]

order-IsByAge : (rs : List Recording) → IsByAge (order_by_age rs)
unfolding order_by_age
order-IsByAge [] = tt
order-IsByAge (r ∷ rs) = insert-IsByAge r (order_by_age rs) (order-IsByAge rs)

-- Two lists of the same rows, each as often, in any order: every test holds of as many.
abbrev pub SameRows : List Recording → List Recording → Type 0
SameRows rs ss = (q : Recording → Bool) → count_where q rs ≡ count_where q ss

insert-count :
    (q : Recording → Bool) (r : Recording) (rs : List Recording)
    → count_where q (insert_by_age r rs) ≡ count_where q (r ∷ rs)
unfolding insert_by_age count_where
insert-count q r [] = refl
insert-count q r (s ∷ rs) = ground (arith, insert-count q r rs)

order-SameRows : (rs : List Recording) → SameRows (order_by_age rs) rs
unfolding order_by_age count_where
order-SameRows [] q = refl
order-SameRows (r ∷ rs) q = ground (arith, insert-count q r (order_by_age rs), order-SameRows rs q)

insert-length :
    (r : Recording) (rs : List Recording) → length (insert_by_age r rs) ≡ suc (length rs)
unfolding insert_by_age
insert-length r [] = refl
insert-length r (s ∷ rs) = ground (arith, insert-length r rs)

order-length : (rs : List Recording) → length (order_by_age rs) ≡ length rs
unfolding order_by_age
order-length [] = refl
order-length (r ∷ rs) = ground (arith, insert-length r (order_by_age rs), order-length rs)

take-drop : (n : ℕ) (rs : List Recording) → take n rs ++ drop n rs ≡ rs
take-drop zero rs = refl
take-drop (suc n) [] = refl
take-drop (suc n) (r ∷ rs) = ap (λ t. r ∷ t) (take-drop n rs)

length-taken : (n : ℕ) (rs : List Recording) → length (take n rs) ≡ min n (length rs)
length-taken zero rs = ground arith
length-taken (suc n) [] = ground arith
length-taken (suc n) (r ∷ rs) = ground (arith, length-taken n rs)

-- The rows of a state that were last updated more than `age` ago.
abbrev pub waiting : State → ℕ → ℕ → Db → List Recording
waiting s now age d = keep (λ (r : Recording). in_state s r && stale now age r) d.recordings

-- The rows that a recovery pass looks at are the first of the waiting rows, ordered by their last
-- update: as many as the limit allows, with a rest such that the two together are the waiting rows
-- and no row is followed by one that was updated before it.
pub stale_rows_lem :
    (s : State) (now age limit : ℕ) (d : Db)
    → let selected = stale_rows s now age limit d in
      (length selected ≡ min limit (length (waiting s now age d)))
      × (rest : List Recording) × IsByAge (selected ++ rest)
      × SameRows (selected ++ rest) (waiting s now age d)
unfolding stale_rows
stale_rows_lem s now age limit d =
    let ordered = order_by_age (waiting s now age d) in
    let whole = take-drop limit ordered in
    (
      length-taken limit ordered ∙ ap (λ n. min limit n) (order-length (waiting s now age d)),
      drop limit ordered,
      rw whole (order-IsByAge (waiting s now age d)),
      rw whole (order-SameRows (waiting s now age d)),
    )
