-- ===== src/DemoData/Table.antt =====
-- The tables of app/services/demo_seed.py, in the source's order.
use limon_backend.Base.{ℕ, String, Option, List, [], ◌∷◌}

-- `tuple[str, str, str | None, list[str], str | None, int | None]`
pub record SeedRow : Type 0 where
  pub date : String
  pub time : String
  pub title : Option String
  pub tag_names : List String
  pub description : Option String
  pub duration_sec : Option ℕ

abbrev pub seed_row :
    String → String → Option String → List String → Option String → Option ℕ → SeedRow
seed_row date time title tag_names description duration_sec = record {
  date = date;
  time = time;
  title = title;
  tag_names = tag_names;
  description = description;
  duration_sec = duration_sec;
}

-- `_TAGS`: the names and their colors
unfoldable pub demo_tags : List (String × String)
demo_tags =
    ("\u{5de}\u{5e9}\u{5e4}\u{5d7}\u{5d4}", "#fcddca")
    ∷ ("\u{5e2}\u{5d1}\u{5d5}\u{5d3}\u{5d4}", "#ede3fc")
    ∷ ("\u{5e8}\u{5d9}\u{5d1}", "#fcd7dd")
    ∷ ("\u{5e8}\u{5e2}\u{5e9}", "#e5e4cf")
    ∷ ("\u{5ea}\u{5d7}\u{5d5}\u{5e9}\u{5d4} \u{5e8}\u{5e2}\u{5d4}", "#dcebdd")
    ∷ ("\u{5e9}\u{5d9}\u{5e0}\u{5d4}", "#d6fcfc")
    ∷ ("\u{5e2}\u{5d5}\u{5de}\u{5e1}", "#ffe0b3")
    ∷ ("\u{5e0}\u{5e1}\u{5d9}\u{5e2}\u{5d4}", "#cfe0fa")
    ∷ ("\u{5e6}\u{5e4}\u{5d9}\u{5e4}\u{5d5}\u{5ea}", "#ecd4f5")
    ∷ ("\u{5d4}\u{5e6}\u{5dc}\u{5d7}\u{5d4}", "#c9f0cd")
    ∷ ("\u{5d1}\u{5d9}\u{5ea}", "#faf0c8")
    ∷ ("\u{5e1}\u{5d5}\u{5e4}\u{5e8}", "#cdf3e4")
    ∷ ("\u{5d7}\u{5d1}\u{5e8}\u{5d4}", "#f9d5f0")
    ∷ ("\u{5d4}\u{5d9}\u{5de}\u{5e0}\u{5e2}\u{5d5}\u{5ea}", "#d5d8e8")
    ∷ ("\u{5d2}\u{5d5}\u{5e4}\u{5e0}\u{5d9}", "#e8d3c0")
    ∷ ("\u{5d4}\u{5de}\u{5ea}\u{5e0}\u{5d4}", "#e6e6e6")
    ∷ []
