-- ===== src/Schemas/Names.antt =====
-- The names of tags that a request may give.
use limon_backend.Base.{
  String, Bool, true, false, Option, none, some, ◌≡◌, refl, arith, ◌≤◌, ◌&&◌, leb, count,
  Bool-cases, inl, inr, get_or,
}
use limon_backend.Runtime.Errors.{Result, ok, err, http_error}
use limon_backend.Runtime.World.{fits}
use limon_backend.Schemas.{read_name, read_tag_create}
use limon_backend.Schemas.Strip.{strip, strip-strip}

-- What a request may give: a name with 1 to 100 characters between its blanks, and a color of at most
-- 32.
abbrev pub is_acceptable : Option String → Option String → Bool
is_acceptable none color = false
is_acceptable (some s) color = leb 1 (count (strip s)) && leb (count (strip s)) 100 && fits 32 color

-- What a request with this name and color is taken for: the name without its blanks and the same
-- color, which are taken for themselves; or a refusal.
abbrev pub TakenAs : Option String → Option String → Result (String × Option String) → Type 0
TakenAs name color (ok (n, c)) =
    (is_acceptable name color ≡ true)
    × (strip (get_or name "") ≡ n)
    × (c ≡ color)
    × (strip n ≡ n)
    × (1 ≤ count n)
    × (count n ≤ 100)
    × (read_tag_create (some n) c ≡ ok (n, c))
TakenAs name color (err x) = (is_acceptable name color ≡ false) × (x ≡ http_error 422)

read_again :
    (n : String) (color : Option String)
    → strip n ≡ n
    → (leb 1 (count n) && leb (count n) 100) ≡ true
    → fits 32 color ≡ true
    → read_tag_create (some n) color ≡ ok (n, color)
unfolding read_tag_create read_name
read_again n color s h f = rw s (rw h (rw f refl))

read_some :
    (s : String) (color : Option String) → TakenAs (some s) color (read_tag_create (some s) color)
unfolding read_tag_create read_name
read_some s color = elim (Bool-cases (leb 1 (count (strip s)) && leb (count (strip s)) 100)) [
  | inl h ↦ elim (Bool-cases (fits 32 color)) [
    | inl f ↦ rw h (
        rw f (
          ground (arith, h, f),
          refl,
          refl,
          strip-strip s,
          ground (arith, h),
          ground (arith, h),
          read_again (strip s) color (strip-strip s) h f,
        ))
    | inr f ↦ rw h (rw f (ground (arith, h, f), refl))
  ]
  | inr h ↦ rw h (ground (arith, h), refl)
]

-- A tag is accepted exactly where its name has 1 to 100 characters without the blanks around it and
-- its color at most 32. It is then taken with the name stripped, within these bounds, and with the
-- same color; a request that gives what was taken is taken for the same. Every other request is
-- refused with 422.
pub read_tag_create-TakenAs :
    (name color : Option String) → TakenAs name color (read_tag_create name color)
unfolding read_tag_create
read_tag_create-TakenAs none color = (refl, refl)
read_tag_create-TakenAs (some s) color = read_some s color
