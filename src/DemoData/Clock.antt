-- ===== src/DemoData/Clock.antt =====
-- `_occurred_at` of app/services/demo_seed.py: a date and a time of Israel as an instant, a number of
-- microseconds since 1970.
use limon_backend.Base.{
  ℕ, zero, suc, ◌+◌, ◌-◌, ◌*◌, ◌/◌, String, Bool, Option, none, some, List, [], ◌∷◌, ◌&&◌, ◌||◌,
  not, all, leb, ltb, eqb, join, if◌then◌else◌,
}
use Prim.Native.Char.{code}
use Prim.Native.Nat.{◌%◌}
use limon_backend.Runtime.Errors.{Result, ok, err, value_error}

-- `timedelta(hours=3)`
abbrev pub idt : ℕ
idt = 3 * 3600 * 1000000

unfoldable pub codes : String → List ℕ
codes String.[] = []
codes (String.◌∷◌ c s) = code c ∷ codes s

abbrev is_digit : ℕ → Bool
is_digit c = leb 48 c && leb c 57

-- The number that two digits write.
abbrev two : ℕ → ℕ → ℕ
two a b = (a - 48) * 10 + (b - 48)

pub record Moment : Type 0 where
  pub year : ℕ
  pub month : ℕ
  pub day : ℕ
  pub hour : ℕ
  pub minute : ℕ

-- The digits and the marks of `%Y-%m-%d %H:%M`.
unfoldable pub moment_of : List ℕ → Option Moment
moment_of (y ∷ e ∷ a ∷ r ∷ p ∷ m ∷ n ∷ q ∷ d ∷ f ∷ s ∷ h ∷ i ∷ c ∷ k ∷ l ∷ []) =
    if all is_digit (y ∷ e ∷ a ∷ r ∷ m ∷ n ∷ d ∷ f ∷ h ∷ i ∷ k ∷ l ∷ [])
      && eqb p b'-'
      && eqb q b'-'
      && eqb s 32
      && eqb c b':'
    then some (record {
      year = two y e * 100 + two a r;
      month = two m n;
      day = two d f;
      hour = two h i;
      minute = two k l;
    })
    else none
moment_of _ = none

abbrev divides : ℕ → ℕ → Bool
divides d n = eqb (n % d) 0

abbrev is_leap : ℕ → Bool
is_leap y = divides 4 y && (not (divides 100 y) || divides 400 y)

unfoldable pub days_in : ℕ → ℕ → ℕ
days_in y m =
    if eqb m 2
    then (if is_leap y then 29 else 28)
    else if eqb m 4 || eqb m 6 || eqb m 9 || eqb m 11
    then 30
    else 31

-- The days of the first so many months of a year.
unfoldable pub days_before : ℕ → ℕ → ℕ
days_before y zero = 0
days_before y (suc m) = days_before y m + days_in y (suc m)

abbrev is_moment : Moment → Bool
is_moment t =
    leb 1 t.year
    && leb 1 t.month
    && leb t.month 12
    && leb 1 t.day
    && leb t.day (days_in t.year t.month)
    && ltb t.hour 24
    && ltb t.minute 60

-- The days since the first one of the year 1; that of 1970 is the 719162nd after it.
unfoldable pub ordinal : Moment → ℕ
unfolding days_before
ordinal t =
    let y = t.year - 1 in
    365 * y + y / 4 - y / 100 + y / 400 + days_before t.year (t.month - 1) + (t.day - 1)

abbrev pub microseconds : Moment → ℕ
microseconds t = (((ordinal t - 719162) * 24 + t.hour) * 60 + t.minute) * 60 * 1000000

abbrev instant : Option Moment → Result ℕ
instant none = err value_error
instant (some t) = if is_moment t then ok (microseconds t - idt) else err value_error

unfoldable pub occurred_at : String → String → Result ℕ
unfolding moment_of codes join
occurred_at date time = instant (moment_of (codes (join date (join " " time))))
