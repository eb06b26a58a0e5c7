-- ===== src/Settings/Cors.antt =====
-- `parse_cors_origins` of app/core/config.py: the allowed origins, from a JSON array or from a text
-- with commas.
use Prim.Native.Char.{Char, char, code}
use limon_backend.Base.{
  String, true, false, List, [], ◌∷◌, ◌≡◌, refl, sym, ap, ◌∙◌, arith, ◌==◌, eqb, eq_iff, All, join,
  comma_join, code_free, count, starts_with, if◌then◌else◌, Bool-cases, inl, inr,
}
use limon_backend.Runtime.Errors.{Result, ok}
use limon_backend.Schemas.Strip.{
  strip, lstrip, rstrip, starts_plain, lstrip-plain, rstrip-rstrip, rstrip-starts_plain,
  lstrip-starts_plain,
}

push_first : Char → List String → List String
push_first c [] = String.◌∷◌ c String.[] ∷ []
push_first c (p ∷ ps) = String.◌∷◌ c p ∷ ps

-- `s.split(",")`
unfoldable pub split_comma : String → List String
unfolding push_first
split_comma String.[] = "" ∷ []
split_comma (String.◌∷◌ c s) =
    if eqb (code c) b',' then "" ∷ split_comma s else push_first c (split_comma s)

-- `[origin.strip() for origin in parts if origin.strip()]`
unfoldable pub stripped_parts : List String → List String
stripped_parts [] = []
stripped_parts (p ∷ ps) = if strip p == "" then stripped_parts ps else strip p ∷ stripped_parts ps

-- The setting before it is read: a text, or a value that is not one.
pub data Setting : Type 0 where
  text : String → Setting
  given : List String → Setting

module _ (loads : String → Result (List String)) where
  abbrev read_text : String → Result (List String)
  read_text value =
      if starts_with "[" value then loads value else ok (stripped_parts (split_comma value))

  -- `json.loads` is a parameter.
  unfoldable pub parse_cors_origins : Setting → Result (List String)
  unfolding split_comma stripped_parts
  parse_cors_origins (given origins) = ok origins
  parse_cors_origins (text value) = read_text (strip value)

-- An origin that a list with commas can hold: not empty, with no comma, and no space at its ends.
pub record IsOrigin (o : String) : Type 0 where
  pub filled : (o == "") ≡ false
  pub stripped : strip o ≡ o
  pub one : code_free b',' o ≡ true

module _ (o : String) (origin : IsOrigin o) where
  origin-rstrip : rstrip o ≡ o
  unfolding strip
  origin-rstrip = ap rstrip (sym origin.stripped) ∙ rstrip-rstrip (lstrip o) ∙ origin.stripped

  origin-starts_plain : starts_plain o ≡ true
  unfolding strip
  origin-starts_plain =
      ap starts_plain (sym origin.stripped) ∙ rstrip-starts_plain (lstrip o) (lstrip-starts_plain o)

cons_filled : (c : Char) (s : String) → (String.◌∷◌ c s == "") ≡ false
cons_filled c s = elim (Bool-cases (String.◌∷◌ c s == "")) [
  | inl same ↦
      absurd (unfold count in omega (arith, ap count ((eq_iff (String.◌∷◌ c s) "").0 same)))
  | inr other ↦ other
]

join_filled : (s t : String) → (t == "") ≡ false → (join s t == "") ≡ false
unfolding join
join_filled String.[] t h = h
join_filled (String.◌∷◌ c s) t h = cons_filled c (join s t)

rstrip-join : (s t : String) → rstrip t ≡ t → (t == "") ≡ false → rstrip (join s t) ≡ join s t
unfolding join rstrip
rstrip-join String.[] t h k = h
rstrip-join (String.◌∷◌ c s) t h k = ground (arith, rstrip-join s t h k, join_filled s t k)

starts_plain-join :
    (s t : String) → (s == "") ≡ false → starts_plain s ≡ true → starts_plain (join s t) ≡ true
unfolding join starts_plain
starts_plain-join String.[] t h k = absurd (ground (arith, h))
starts_plain-join (String.◌∷◌ c s) t h k = k

split_comma-code_free : (s : String) → code_free b',' s ≡ true → split_comma s ≡ s ∷ []
unfolding split_comma code_free push_first
split_comma-code_free String.[] h = refl
split_comma-code_free (String.◌∷◌ c s) h = ground (arith, split_comma-code_free s)

split_comma-join :
    (s t : String) → code_free b',' s ≡ true → split_comma (join s (join "," t)) ≡ s ∷ split_comma t
unfolding split_comma code_free join push_first
split_comma-join String.[] t h = refl
split_comma-join (String.◌∷◌ c s) t h = ground (arith, split_comma-join s t)

comma_filled : (s : String) → (join "," s == "") ≡ false
unfolding join
comma_filled s = cons_filled (char b',' tt) s

comma_join-filled :
    (o : String) (os : List String) → IsOrigin o → (comma_join (o ∷ os) == "") ≡ false
unfolding comma_join
comma_join-filled o [] origin = origin.filled
comma_join-filled o (q ∷ os) origin = join_filled o _ (comma_filled (comma_join (q ∷ os)))

comma_join-rstrip : (os : List String) → All IsOrigin os → rstrip (comma_join os) ≡ comma_join os
unfolding comma_join
comma_join-rstrip [] h = unfold rstrip in refl
comma_join-rstrip (o ∷ []) h = origin-rstrip o h.0
comma_join-rstrip (o ∷ q ∷ os) h =
    let rest = comma_join-rstrip (q ∷ os) h.1 in
    let more = rstrip-join "," (comma_join (q ∷ os)) rest (comma_join-filled q os h.1.0) in
    rstrip-join o (join "," (comma_join (q ∷ os))) more (comma_filled (comma_join (q ∷ os)))

comma_join-starts_plain : (os : List String) → All IsOrigin os → starts_plain (comma_join os) ≡ true
unfolding comma_join
comma_join-starts_plain [] h = unfold starts_plain in refl
comma_join-starts_plain (o ∷ []) h = origin-starts_plain o h.0
comma_join-starts_plain (o ∷ q ∷ os) h =
    starts_plain-join o _ (h.0.filled) (origin-starts_plain o h.0)

comma_join-strip : (os : List String) → All IsOrigin os → strip (comma_join os) ≡ comma_join os
unfolding strip
comma_join-strip os h =
    rw (lstrip-plain (comma_join os) (comma_join-starts_plain os h)) (comma_join-rstrip os h)

stripped_parts_same : (os : List String) → All IsOrigin os → stripped_parts os ≡ os
unfolding stripped_parts
stripped_parts_same [] h = refl
stripped_parts_same (o ∷ os) h =
    rw (h.0.stripped) (rw (h.0.filled) (rw (stripped_parts_same os h.1) refl))

split_comma-comma_join :
    (o : String) (os : List String)
    → All IsOrigin (o ∷ os)
    → split_comma (comma_join (o ∷ os)) ≡ o ∷ os
unfolding comma_join
split_comma-comma_join o [] h = split_comma-code_free o (h.0.one)
split_comma-comma_join o (q ∷ os) h =
    split_comma-join o (comma_join (q ∷ os)) (h.0.one)
    ∙ ap (λ ps. o ∷ ps) (split_comma-comma_join q os h.1)

parts_of_join :
    (os : List String) → All IsOrigin os → stripped_parts (split_comma (comma_join os)) ≡ os
parts_of_join [] h = unfold comma_join split_comma stripped_parts strip lstrip rstrip in refl
parts_of_join (o ∷ os) h =
    ap stripped_parts (split_comma-comma_join o os h) ∙ stripped_parts_same (o ∷ os) h

-- A list of origins that is written with commas reads as itself, the empty list too, whatever
-- `json.loads` does, where no origin is empty, holds a comma or has a space at an end, and the text
-- does not start with a bracket.
pub parse_cors_origins-comma_join :
    (loads : String → Result (List String)) (os : List String)
    → All IsOrigin os
    → starts_with "[" (comma_join os) ≡ false
    → parse_cors_origins loads (text (comma_join os)) ≡ ok os
unfolding parse_cors_origins
parse_cors_origins-comma_join loads os h plain =
    rw (comma_join-strip os h) (rw plain (ap ok (parts_of_join os h)))
