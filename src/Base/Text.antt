-- ===== src/Base/Text.antt =====
-- Text by its characters: joining, length, splitting at a slash, and the end of a text.
use Prim.Native.Nat.{ℕ, zero, suc, ◌+◌}
use Prim.Native.Char.{Char, char, code}
use Prim.Native.String.{String}
use mathlib.Core.Path.{◌≡◌, refl, ap, ◌∙◌}
use mathlib.Core.Logic.{inl, inr}
use mathlib.Core.Bool.{Bool, true, false, ◌&&◌, ◌||◌}
use mathlib.Core.Option
use mathlib.Core.Option.{Option, none, some}
use mathlib.Core.List.{List, [], ◌∷◌}
use native.Mathlib.Omega.{arith}
use text.Mathlib.Text.{◌==◌}
use text.Mathlib.TextEquality.{eq_iff, Char-path}
use text.Mathlib.TextPositions.{eq_refl}
use limon_backend.Base.Tests.{if◌then◌else◌, Bool-cases, Option-cases, ltb, leb, eqb}

-- `a + b` on texts.
unfoldable pub join : String → String → String
join String.[] t = t
join (String.◌∷◌ c s) t = String.◌∷◌ c (join s t)

-- `len(s)`: the number of characters.
unfoldable pub count : String → ℕ
count String.[] = 0
count (String.◌∷◌ c s) = suc (count s)

-- `s[:n]`
unfoldable pub prefix : ℕ → String → String
prefix zero s = String.[]
prefix (suc n) String.[] = String.[]
prefix (suc n) (String.◌∷◌ c s) = String.◌∷◌ c (prefix n s)

-- Every character is an ASCII one.
unfoldable pub is_ascii : String → Bool
is_ascii String.[] = true
is_ascii (String.◌∷◌ c s) = ltb (code c) 128 && is_ascii s

abbrev is_slash : Char → Bool
is_slash c = eqb (code c) b'/'

push_first : Char → List String → List String
push_first c [] = String.◌∷◌ c String.[] ∷ []
push_first c (p ∷ ps) = String.◌∷◌ c p ∷ ps

-- `s.split("/")`
unfoldable pub split_slash : String → List String
unfolding push_first
split_slash String.[] = "" ∷ []
split_slash (String.◌∷◌ c s) =
    if is_slash c then "" ∷ split_slash s else push_first c (split_slash s)

-- `"/" not in s`
unfoldable pub slash_free : String → Bool
slash_free String.[] = true
slash_free (String.◌∷◌ c s) = if is_slash c then false else slash_free s

-- No character of this code.
unfoldable pub code_free : ℕ → String → Bool
code_free k String.[] = true
code_free k (String.◌∷◌ c s) = if eqb (code c) k then false else code_free k s

-- `s.startswith(start)`
unfoldable pub starts_with : String → String → Bool
starts_with String.[] s = true
starts_with (String.◌∷◌ c t) String.[] = false
starts_with (String.◌∷◌ c t) (String.◌∷◌ d s) = eqb (code c) (code d) && starts_with t s

-- The characters that `str.strip` takes off.
unfoldable pub is_space : ℕ → Bool
is_space k =
    (leb 9 k && leb k 13)
    || (leb 28 k && leb k 32)
    || eqb k 0x85
    || eqb k 0xa0
    || eqb k 0x1680
    || (leb 0x2000 k && leb k 0x200a)
    || eqb k 0x2028
    || eqb k 0x2029
    || eqb k 0x202f
    || eqb k 0x205f
    || eqb k 0x3000

-- `not s.strip()`
unfoldable pub is_blank : String → Bool
unfolding is_space
is_blank String.[] = true
is_blank (String.◌∷◌ c s) = is_space (code c) && is_blank s

-- `s[: -len(end)]` if `s.endswith(end)`.
unfoldable pub strip_suffix : String → String → Option String
strip_suffix end String.[] = if "" == end then some "" else none
strip_suffix end (String.◌∷◌ c s) =
    if String.◌∷◌ c s == end then some "" else Option.map (λ r. String.◌∷◌ c r) (strip_suffix end s)

-- `s.rstrip("/")`
unfoldable pub rstrip_slash : String → String
rstrip_slash String.[] = ""
rstrip_slash (String.◌∷◌ c s) =
    let rest = rstrip_slash s in if is_slash c && rest == "" then "" else String.◌∷◌ c rest

-- `",".join(parts)`
unfoldable pub comma_join : List String → String
unfolding join
comma_join [] = ""
comma_join (p ∷ []) = p
comma_join (p ∷ q ∷ ps) = join p (join "," (comma_join (q ∷ ps)))

pub count-join : (s t : String) → count (join s t) ≡ count s + count t
unfolding join count
count-join String.[] t = omega arith
count-join (String.◌∷◌ c s) t = omega (arith, count-join s t)

-- A text with no slash is one part, and what stands before a slash is the first part.
pub split_slash-slash_free : (s : String) → slash_free s ≡ true → split_slash s ≡ s ∷ []
unfolding split_slash slash_free
split_slash-slash_free String.[] h = refl
split_slash-slash_free (String.◌∷◌ c s) h = ground (arith, split_slash-slash_free s)

pub split_slash-join :
    (s t : String) → slash_free s ≡ true → split_slash (join s (join "/" t)) ≡ s ∷ split_slash t
unfolding split_slash slash_free join
split_slash-join String.[] t h = refl
split_slash-join (String.◌∷◌ c s) t h = ground (arith, split_slash-join s t)

pub slash_free-join :
    (s t : String) → slash_free s ≡ true → slash_free t ≡ true → slash_free (join s t) ≡ true
unfolding slash_free join
slash_free-join String.[] t h k = k
slash_free-join (String.◌∷◌ c s) t h k = ground (arith, slash_free-join s t)

strip_suffix_self : (end : String) → strip_suffix end end ≡ some ""
unfolding strip_suffix
strip_suffix_self String.[] = refl
strip_suffix_self (String.◌∷◌ c s) = rw (eq_refl (String.◌∷◌ c s))

-- A longer text is another text.
longer_ne : (c : Char) (s end : String) → (String.◌∷◌ c (join s end) == end) ≡ false
longer_ne c s end = elim (Bool-cases (String.◌∷◌ c (join s end) == end)) [
  | inl same ↦
      let e = (eq_iff (String.◌∷◌ c (join s end)) end).0 same in
      absurd (unfold count in omega (arith, count-join s end, ap count e))
  | inr other ↦ other
]

strip_suffix-longer :
    (c : Char) (s end : String)
    → strip_suffix end (String.◌∷◌ c (join s end))
      ≡ Option.map (λ r. String.◌∷◌ c r) (strip_suffix end (join s end))
unfolding strip_suffix
strip_suffix-longer c s end = rw (longer_ne c s end)

-- What was put before an ending comes back when the ending is taken off.
pub strip_suffix-join : (s end : String) → strip_suffix end (join s end) ≡ some s
unfolding join
strip_suffix-join String.[] end = strip_suffix_self end
strip_suffix-join (String.◌∷◌ c s) end = rw strip_suffix-longer (rw (strip_suffix-join s end))

-- `"/".join(parts)`
unfoldable pub slash_join : List String → String
unfolding join
slash_join [] = ""
slash_join (p ∷ []) = p
slash_join (p ∷ q ∷ ps) = join p (join "/" (slash_join (q ∷ ps)))

slash_join-push_first :
    (c : Char) (ps : List String) → slash_join (push_first c ps) ≡ String.◌∷◌ c (slash_join ps)
unfolding slash_join push_first join
slash_join-push_first c [] = refl
slash_join-push_first c (p ∷ []) = refl
slash_join-push_first c (p ∷ q ∷ ps) = refl

slash_join-split_slash_more :
    (s : String) → slash_join ("" ∷ split_slash s) ≡ join "/" (slash_join (split_slash s))
unfolding slash_join split_slash push_first join
slash_join-split_slash_more String.[] = refl
slash_join-split_slash_more (String.◌∷◌ c s) = elim (Bool-cases (is_slash c)) [
  | inl h ↦ rw h refl
  | inr h ↦ rw h (pushed (split_slash s))
]
  where
    pushed :
        (ps : List String)
        → slash_join ("" ∷ push_first c ps) ≡ join "/" (slash_join (push_first c ps))
    pushed [] = refl
    pushed (p ∷ ps) = refl

-- The parts of a text at its slashes make the text again.
pub slash_join-split_slash : (s : String) → slash_join (split_slash s) ≡ s
unfolding split_slash
slash_join-split_slash String.[] = unfold slash_join in refl
slash_join-split_slash (String.◌∷◌ c s) = elim (Bool-cases (is_slash c)) [
  | inl h ↦ rw h (
      slash_join-split_slash_more s
      ∙ ap (λ t. join "/" t) (slash_join-split_slash s)
      ∙ unfold join in ap (λ d. String.◌∷◌ d s) (Char-path (char 47 tt) c (ground (arith, h))))
  | inr h ↦ rw h (
      slash_join-push_first c (split_slash s) ∙ ap (λ t. String.◌∷◌ c t) (slash_join-split_slash s))
]

-- What an ending was taken off, with the ending again.
pub join-strip_suffix : (end s r : String) → strip_suffix end s ≡ some r → s ≡ join r end
unfolding strip_suffix join
join-strip_suffix end String.[] r h = elim (Bool-cases ("" == end)) [
  | inl e ↦ let r' : r ≡ "" = ground (arith, rw e at h) in rw r' ((eq_iff "" end).0 e)
  | inr n ↦ absurd (ground (arith, rw n at h))
]
join-strip_suffix end (String.◌∷◌ c s) r h = elim (Bool-cases (String.◌∷◌ c s == end)) [
  | inl e ↦ let r' : r ≡ "" = ground (arith, rw e at h) in rw r' ((eq_iff (String.◌∷◌ c s) end).0 e)
  | inr n ↦ elim (Option-cases (strip_suffix end s)) [
    | inl o ↦ absurd (ground (arith, rw (n, o) at h))
    | inr (t, o) ↦
        let r' : r ≡ String.◌∷◌ c t = ground (arith, rw (n, o) at h) in
        rw r' (ap (λ u. String.◌∷◌ c u) (join-strip_suffix end s t o))
  ]
]
