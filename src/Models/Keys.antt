-- ===== src/Models/Keys.antt =====
-- Primary keys: no two rows of a table have the same id.
use limon_backend.Base.{
  String, ◌≡◌, refl, Bool, true, false, none, some, List, [], ◌∷◌, arith, ◌==◌, eq_iff, Bool-cases,
  inl, inr,
}
use limon_backend.Models.Table.{find, count_where, count_where-zero}

module _ {A : Type 0} (key : A → String) where
  abbrev pub has_key : String → A → Bool
  has_key k x = key x == k

  -- No id is that of two rows.
  abbrev pub AreKeyed : List A → Type 0
  AreKeyed [] = Unit
  AreKeyed (x ∷ xs) = (find (has_key (key x)) xs ≡ none) × AreKeyed xs

  -- A test that passes rows of one id only, and not the row of that id, passes none.
  pub count_where-keyed :
      (q : A → Bool) (k : String) (xs : List A) (r : A)
      → AreKeyed xs
      → ((x : A) → q x ≡ true → has_key k x ≡ true)
      → find (has_key k) xs ≡ some r
      → q r ≡ false
      → count_where q xs ≡ 0
  unfolding find count_where
  count_where-keyed q k [] r u h e f = refl
  count_where-keyed q k (x ∷ xs) r u h e f = elim (Bool-cases (key x == k)) [
    | inl same ↦
        let e' : find (has_key k) xs ≡ none = rw (← (eq_iff (key x) k).0 same) u.0 in
        ground (arith, count_where-zero (has_key k) q xs h e')
    | inr other ↦ ground (arith, count_where-keyed q k xs r u.1 h, h x)
  ]
