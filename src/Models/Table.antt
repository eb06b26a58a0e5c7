-- ===== src/Models/Table.antt =====
-- A table as the list of its rows: the queries and updates that the services make.
use limon_backend.Base.{
  ℕ, suc, ◌<◌, ◌≡◌, refl, Bool, true, Option, none, some, List, [], ◌∷◌, arith, if◌then◌else◌,
}

module _ {ℓ} {A : Type ℓ} where
  -- `select(A).where(p)`, its first row
  unfoldable pub find : (A → Bool) → List A → Option A
  find p [] = none
  find p (x ∷ xs) = if p x then some x else find p xs

  -- `update(A).where(p).values(f)`, as a change of each row
  abbrev pub change_if : (A → Bool) → (A → A) → A → A
  change_if p f x = if p x then f x else x

  unfoldable pub update_where : (A → Bool) → (A → A) → List A → List A
  update_where p f [] = []
  update_where p f (x ∷ xs) = change_if p f x ∷ update_where p f xs

  -- the `rowcount` of that update
  unfoldable pub count_where : (A → Bool) → List A → ℕ
  count_where p [] = 0
  count_where p (x ∷ xs) = if p x then suc (count_where p xs) else count_where p xs

  -- `delete(A).where(p)`
  unfoldable pub delete_where : (A → Bool) → List A → List A
  delete_where p [] = []
  delete_where p (x ∷ xs) = if p x then delete_where p xs else x ∷ delete_where p xs

  -- A row that is found passes the test.
  pub find-passes : (p : A → Bool) (xs : List A) (x : A) → find p xs ≡ some x → p x ≡ true
  unfolding find
  find-passes p [] x h = ground arith
  find-passes p (y ∷ xs) x h = ground (arith, find-passes p xs x)

  pub find-delete_where :
      (p q : A → Bool) (xs : List A)
      → ((x : A) → p x ≡ true → q x ≡ true)
      → find p (delete_where q xs) ≡ none
  unfolding find delete_where
  find-delete_where p q [] h = refl
  find-delete_where p q (x ∷ xs) h = ground (arith, find-delete_where p q xs h, h x)

  -- An update that keeps a test finds the same row, changed or not.
  pub find-update_where-some :
      (p q : A → Bool) (f : A → A) (xs : List A) (y : A)
      → ((x : A) → p (f x) ≡ p x)
      → find p xs ≡ some y
      → find p (update_where q f xs) ≡ some (change_if q f y)
  unfolding find update_where
  find-update_where-some p q f [] y same h = ground arith
  find-update_where-some p q f (x ∷ xs) y same h =
      ground (arith, find-update_where-some p q f xs y same, same x)

  pub find-update_where-none :
      (p q : A → Bool) (f : A → A) (xs : List A)
      → ((x : A) → p (f x) ≡ p x)
      → find p xs ≡ none
      → find p (update_where q f xs) ≡ none
  unfolding find update_where
  find-update_where-none p q f [] same h = refl
  find-update_where-none p q f (x ∷ xs) same h =
      ground (arith, find-update_where-none p q f xs same, same x)

  -- A test that no row passes counts none.
  pub count_where-zero :
      (p q : A → Bool) (xs : List A)
      → ((x : A) → q x ≡ true → p x ≡ true)
      → find p xs ≡ none
      → count_where q xs ≡ 0
  unfolding find count_where
  count_where-zero p q [] h e = refl
  count_where-zero p q (x ∷ xs) h e = ground (arith, count_where-zero p q xs h, h x)

  -- A row that is found and passes is counted.
  pub count_where-pos :
      (p q : A → Bool) (xs : List A) (x : A)
      → find p xs ≡ some x
      → q x ≡ true
      → 0 < count_where q xs
  unfolding find count_where
  count_where-pos p q [] x e h = ground arith
  count_where-pos p q (y ∷ xs) x e h = ground (arith, count_where-pos p q xs x)
