-- ===== src/Schemas/Strip.antt =====
-- Python's `str.strip`.
use limon_backend.Base.{
  String, Bool, true, false, ◌≡◌, refl, arith, ◌==◌, ◌&&◌, is_space, if◌then◌else◌, Bool-cases, inl,
  inr,
}
use Prim.Native.Char.{code}

unfoldable pub lstrip : String → String
unfolding is_space
lstrip String.[] = ""
lstrip (String.◌∷◌ c s) = if is_space (code c) then lstrip s else String.◌∷◌ c s

unfoldable pub rstrip : String → String
unfolding is_space
rstrip String.[] = ""
rstrip (String.◌∷◌ c s) =
    let rest = rstrip s in if is_space (code c) && rest == "" then "" else String.◌∷◌ c rest

-- `s.strip()`
unfoldable pub strip : String → String
unfolding lstrip rstrip
strip s = rstrip (lstrip s)

-- The first character of a text is not a space.
unfoldable pub starts_plain : String → Bool
starts_plain String.[] = true
starts_plain (String.◌∷◌ c s) = if is_space (code c) then false else true

pub rstrip-starts_plain : (s : String) → starts_plain s ≡ true → starts_plain (rstrip s) ≡ true
unfolding rstrip starts_plain
rstrip-starts_plain String.[] h = refl
rstrip-starts_plain (String.◌∷◌ c s) h = ground (arith, h)

pub lstrip-starts_plain : (s : String) → starts_plain (lstrip s) ≡ true
unfolding lstrip starts_plain
lstrip-starts_plain String.[] = refl
lstrip-starts_plain (String.◌∷◌ c s) = ground (arith, lstrip-starts_plain s)

pub lstrip-plain : (s : String) → starts_plain s ≡ true → lstrip s ≡ s
unfolding lstrip starts_plain
lstrip-plain String.[] h = refl
lstrip-plain (String.◌∷◌ c s) h = ground (arith, h)

pub rstrip-rstrip : (s : String) → rstrip (rstrip s) ≡ rstrip s
unfolding rstrip
rstrip-rstrip String.[] = refl
rstrip-rstrip (String.◌∷◌ c s) = elim (Bool-cases (is_space (code c) && rstrip s == "")) [
  | inl h ↦ rw h refl
  | inr h ↦ rw h (ground (arith, rstrip-rstrip s, h))
]

-- A stripped text is stripped.
pub strip-strip : (s : String) → strip (strip s) ≡ strip s
unfolding strip
strip-strip s =
    rw (lstrip-plain (rstrip (lstrip s)) (rstrip-starts_plain (lstrip s) (lstrip-starts_plain s)))
      (rstrip-rstrip (lstrip s))
