-- ===== src/DemoData/EarlyRows.antt =====
-- The first rows of the demo history in app/services/demo_seed.py.
use limon_backend.Base.{none, some, List, [], ◌∷◌}
use limon_backend.DemoData.Table.{SeedRow, seed_row}

-- `_SEED_EVENTS`, the rows before 16 July
unfoldable pub early_events : List SeedRow
early_events =
    seed_row "2026-07-09" "08:10"
      (some
        "\u{5d4}\u{5ea}\u{5e2}\u{5d5}\u{5e8}\u{5e8}\u{5ea}\u{5d9} \u{5d0}\u{5d7}\u{5e8}\u{5d9} \u{5dc}\u{5d9}\u{5dc}\u{5d4} \u{5dc}\u{5d0} \u{5e9}\u{5e7}\u{5d8}")
      ("\u{5e9}\u{5d9}\u{5e0}\u{5d4}" ∷ "\u{5ea}\u{5d7}\u{5d5}\u{5e9}\u{5d4} \u{5e8}\u{5e2}\u{5d4}"
        ∷ [])
      (some
        "\u{5d4}\u{5ea}\u{5e2}\u{5d5}\u{5e8}\u{5e8}\u{5ea}\u{5d9} \u{5db}\u{5de}\u{5d4} \u{5e4}\u{5e2}\u{5de}\u{5d9}\u{5dd} \u{5d5}\u{5d4}\u{5e8}\u{5d2}\u{5e9}\u{5ea}\u{5d9} \u{5e2}\u{5d9}\u{5d9}\u{5e4}\u{5d5}\u{5ea} \u{5d5}\u{5db}\u{5d1}\u{5d3}\u{5d5}\u{5ea} \u{5d1}\u{5d1}\u{5d5}\u{5e7}\u{5e8}.")
      none
    ∷ seed_row "2026-07-09" "14:25"
        (some
          "\u{5e4}\u{5d2}\u{5d9}\u{5e9}\u{5d4} \u{5e9}\u{5d4}\u{5ea}\u{5d0}\u{5e8}\u{5db}\u{5d4}")
        ("\u{5e2}\u{5d1}\u{5d5}\u{5d3}\u{5d4}" ∷ "\u{5e2}\u{5d5}\u{5de}\u{5e1}" ∷ []) none none
    ∷ seed_row "2026-07-09" "21:40" (some "\u{5d4}\u{5e7}\u{5dc}\u{5d8}\u{5d4} (0:09)")
        ("\u{5de}\u{5e9}\u{5e4}\u{5d7}\u{5d4}" ∷ "\u{5e8}\u{5d9}\u{5d1}" ∷ [])
        (some
          "\u{5d4}\u{5e9}\u{5d9}\u{5d7}\u{5d4} \u{5d1}\u{5d1}\u{5d9}\u{5ea} \u{5d4}\u{5ea}\u{5e4}\u{5ea}\u{5d7}\u{5d4} \u{5dc}\u{5d5}\u{5d5}\u{5d9}\u{5db}\u{5d5}\u{5d7} \u{5d5}\u{5d4}\u{5e8}\u{5d2}\u{5e9}\u{5ea}\u{5d9} \u{5e9}\u{5d0}\u{5e0}\u{5d9} \u{5e0}\u{5e1}\u{5d2}\u{5e8}\u{5ea} \u{5d5}\u{5dc}\u{5d0} \u{5de}\u{5e6}\u{5dc}\u{5d9}\u{5d7}\u{5d4} \u{5dc}\u{5d4}\u{5e1}\u{5d1}\u{5d9}\u{5e8} \u{5de}\u{5d4} \u{5de}\u{5e4}\u{5e8}\u{5d9}\u{5e2} \u{5dc}\u{5d9}.")
        (some 9)
    ∷ seed_row "2026-07-10" "09:05"
        (some
          "\u{5d4}\u{5d0}\u{5d5}\u{5d8}\u{5d5}\u{5d1}\u{5d5}\u{5e1} \u{5d4}\u{5d9}\u{5d4} \u{5e6}\u{5e4}\u{5d5}\u{5e3}")
        ("\u{5e0}\u{5e1}\u{5d9}\u{5e2}\u{5d4}" ∷ "\u{5e6}\u{5e4}\u{5d9}\u{5e4}\u{5d5}\u{5ea}" ∷ [])
        (some
          "\u{5d9}\u{5e8}\u{5d3}\u{5ea}\u{5d9} \u{5ea}\u{5d7}\u{5e0}\u{5d4} \u{5d0}\u{5d7}\u{5ea} \u{5dc}\u{5e4}\u{5e0}\u{5d9} \u{5db}\u{5d9} \u{5d4}\u{5e8}\u{5d2}\u{5e9}\u{5ea}\u{5d9} \u{5e9}\u{5d0}\u{5d9}\u{5df} \u{5dc}\u{5d9} \u{5de}\u{5e1}\u{5e4}\u{5d9}\u{5e7} \u{5d0}\u{5d5}\u{5d5}\u{5d9}\u{5e8}.")
        none
    ∷ seed_row "2026-07-10" "16:50" none
        ("\u{5ea}\u{5d7}\u{5d5}\u{5e9}\u{5d4} \u{5e8}\u{5e2}\u{5d4}" ∷ []) none none
    ∷ seed_row "2026-07-10" "22:15"
        (some
          "\u{5d4}\u{5e6}\u{5dc}\u{5d7}\u{5ea}\u{5d9} \u{5dc}\u{5e6}\u{5d0}\u{5ea} \u{5dc}\u{5d4}\u{5dc}\u{5d9}\u{5db}\u{5d4}")
        ("\u{5d4}\u{5e6}\u{5dc}\u{5d7}\u{5d4}" ∷ [])
        (some
          "\u{5dc}\u{5d0} \u{5d4}\u{5d9}\u{5d4} \u{5dc}\u{5d9} \u{5db}\u{5d5}\u{5d7} \u{5dc}\u{5e6}\u{5d0}\u{5ea}, \u{5d0}\u{5d1}\u{5dc} \u{5d0}\u{5d7}\u{5e8}\u{5d9} \u{5db}\u{5de}\u{5d4} \u{5d3}\u{5e7}\u{5d5}\u{5ea} \u{5d1}\u{5d7}\u{5d5}\u{5e5} \u{5d4}\u{5e8}\u{5d2}\u{5e9}\u{5ea}\u{5d9} \u{5e7}\u{5e6}\u{5ea} \u{5d9}\u{5d5}\u{5ea}\u{5e8} \u{5e8}\u{5d2}\u{5d5}\u{5e2}\u{5d4}.")
        none
    ∷ seed_row "2026-07-11" "10:30"
        (some
          "\u{5e8}\u{5e2}\u{5e9} \u{5de}\u{5d4}\u{5e9}\u{5d9}\u{5e4}\u{5d5}\u{5e5} \u{5e9}\u{5dc} \u{5d4}\u{5e9}\u{5db}\u{5e0}\u{5d9}\u{5dd}")
        ("\u{5e8}\u{5e2}\u{5e9}" ∷ "\u{5d1}\u{5d9}\u{5ea}" ∷ []) none none
    ∷ seed_row "2026-07-11" "18:20" (some "\u{5d4}\u{5e7}\u{5dc}\u{5d8}\u{5d4} (0:11)")
        ("\u{5de}\u{5e9}\u{5e4}\u{5d7}\u{5d4}" ∷ [])
        (some
          "\u{5d1}\u{5d0}\u{5e8}\u{5d5}\u{5d7}\u{5d4} \u{5d4}\u{5e8}\u{5d2}\u{5e9}\u{5ea}\u{5d9} \u{5e9}\u{5db}\u{5d5}\u{5dc}\u{5dd} \u{5de}\u{5d3}\u{5d1}\u{5e8}\u{5d9}\u{5dd} \u{5d0}\u{5dc}\u{5d9}\u{5d9} \u{5d1}\u{5d1}\u{5ea} \u{5d0}\u{5d7}\u{5ea}. \u{5d9}\u{5e6}\u{5d0}\u{5ea}\u{5d9} \u{5dc}\u{5db}\u{5de}\u{5d4} \u{5d3}\u{5e7}\u{5d5}\u{5ea} \u{5dc}\u{5de}\u{5e8}\u{5e4}\u{5e1}\u{5ea} \u{5db}\u{5d3}\u{5d9} \u{5dc}\u{5d4}\u{5d9}\u{5e8}\u{5d2}\u{5e2}.")
        (some 11)
    ∷ seed_row "2026-07-12" "07:45" none ("\u{5e9}\u{5d9}\u{5e0}\u{5d4}" ∷ []) none none
    ∷ seed_row "2026-07-12" "13:10"
        (some
          "\u{5d0}\u{5d6}\u{5e2}\u{5e7}\u{5d4} \u{5e9}\u{5dc} \u{5e8}\u{5db}\u{5d1} \u{5d1}\u{5d7}\u{5e0}\u{5d9}\u{5d5}\u{5df}")
        ("\u{5e8}\u{5e2}\u{5e9}" ∷ "\u{5ea}\u{5d7}\u{5d5}\u{5e9}\u{5d4} \u{5e8}\u{5e2}\u{5d4}" ∷ [])
        (some
          "\u{5d4}\u{5e6}\u{5dc}\u{5d9}\u{5dc} \u{5ea}\u{5e4}\u{5e1} \u{5d0}\u{5d5}\u{5ea}\u{5d9} \u{5dc}\u{5d0} \u{5de}\u{5d5}\u{5db}\u{5e0}\u{5d4} \u{5d5}\u{5e0}\u{5e9}\u{5d0}\u{5e8}\u{5ea}\u{5d9} \u{5d3}\u{5e8}\u{5d5}\u{5db}\u{5d4} \u{5d2}\u{5dd} \u{5d0}\u{5d7}\u{5e8}\u{5d9} \u{5e9}\u{5d4}\u{5d5}\u{5d0} \u{5d4}\u{5e4}\u{5e1}\u{5d9}\u{5e7}.")
        none
    ∷ seed_row "2026-07-12" "20:05"
        (some
          "\u{5d0}\u{5e8}\u{5d5}\u{5d7}\u{5ea} \u{5e2}\u{5e8}\u{5d1} \u{5d0}\u{5e6}\u{5dc} \u{5d4}\u{5d4}\u{5d5}\u{5e8}\u{5d9}\u{5dd}")
        ("\u{5de}\u{5e9}\u{5e4}\u{5d7}\u{5d4}" ∷ []) none none
    ∷ seed_row "2026-07-13" "08:55"
        (some
          "\u{5e7}\u{5d5}\u{5e9}\u{5d9} \u{5dc}\u{5d4}\u{5ea}\u{5e8}\u{5db}\u{5d6} \u{5d1}\u{5d9}\u{5e9}\u{5d9}\u{5d1}\u{5d4}")
        ("\u{5e2}\u{5d1}\u{5d5}\u{5d3}\u{5d4}" ∷ "\u{5e2}\u{5d5}\u{5de}\u{5e1}" ∷ [])
        (some
          "\u{5d4}\u{5ea}\u{5e7}\u{5e9}\u{5d9}\u{5ea}\u{5d9} \u{5dc}\u{5e2}\u{5e7}\u{5d5}\u{5d1} \u{5d0}\u{5d7}\u{5e8}\u{5d9} \u{5d4}\u{5e9}\u{5d9}\u{5d7}\u{5d4} \u{5d5}\u{5d1}\u{5d9}\u{5e7}\u{5e9}\u{5ea}\u{5d9} \u{5e9}\u{5d9}\u{5d7}\u{5d6}\u{5e8}\u{5d5} \u{5e2}\u{5dc} \u{5d4}\u{5d3}\u{5d1}\u{5e8}\u{5d9}\u{5dd}.")
        none
    ∷ seed_row "2026-07-13" "15:35" none
        ("\u{5ea}\u{5d7}\u{5d5}\u{5e9}\u{5d4} \u{5e8}\u{5e2}\u{5d4}" ∷ []) none none
    ∷ seed_row "2026-07-13" "23:10" (some "\u{5d4}\u{5e7}\u{5dc}\u{5d8}\u{5d4} (0:08)")
        ("\u{5e9}\u{5d9}\u{5e0}\u{5d4}" ∷ [])
        (some
          "\u{5d0}\u{5e0}\u{5d9} \u{5e2}\u{5d9}\u{5d9}\u{5e4}\u{5d4} \u{5d0}\u{5d1}\u{5dc} \u{5dc}\u{5d0} \u{5de}\u{5e6}\u{5dc}\u{5d9}\u{5d7}\u{5d4} \u{5dc}\u{5d4}\u{5d9}\u{5e8}\u{5d3}\u{5dd}. \u{5db}\u{5dc} \u{5e8}\u{5e2}\u{5e9} \u{5e7}\u{5d8}\u{5df} \u{5de}\u{5e7}\u{5e4}\u{5d9}\u{5e5} \u{5d0}\u{5d5}\u{5ea}\u{5d9}.")
        (some 8)
    ∷ seed_row "2026-07-14" "11:20"
        (some "\u{5e7}\u{5e0}\u{5d9}\u{5d5}\u{5ea} \u{5d1}\u{5de}\u{5db}\u{5d5}\u{5dc}\u{5ea}")
        ("\u{5e1}\u{5d5}\u{5e4}\u{5e8}" ∷ "\u{5e8}\u{5e2}\u{5e9}" ∷ []) none none
    ∷ seed_row "2026-07-14" "17:45"
        (some
          "\u{5e9}\u{5d9}\u{5d7}\u{5d4} \u{5d8}\u{5d5}\u{5d1}\u{5d4} \u{5e2}\u{5dd} \u{5d4}\u{5de}\u{5e0}\u{5d4}\u{5dc}\u{5ea}")
        ("\u{5e2}\u{5d1}\u{5d5}\u{5d3}\u{5d4}" ∷ "\u{5d4}\u{5e6}\u{5dc}\u{5d7}\u{5d4}" ∷ [])
        (some
          "\u{5d0}\u{5de}\u{5e8}\u{5ea}\u{5d9} \u{5e9}\u{5d0}\u{5e0}\u{5d9} \u{5e6}\u{5e8}\u{5d9}\u{5db}\u{5d4} \u{5d9}\u{5d5}\u{5ea}\u{5e8} \u{5d6}\u{5de}\u{5df} \u{5dc}\u{5de}\u{5e9}\u{5d9}\u{5de}\u{5d4} \u{5d5}\u{5d4}\u{5d9}\u{5d0} \u{5e7}\u{5d9}\u{5d1}\u{5dc}\u{5d4} \u{5d0}\u{5ea} \u{5d6}\u{5d4} \u{5d1}\u{5dc}\u{5d9} \u{5d5}\u{5d9}\u{5db}\u{5d5}\u{5d7}.")
        none
    ∷ seed_row "2026-07-15" "06:50"
        (some
          "\u{5d4}\u{5ea}\u{5e2}\u{5d5}\u{5e8}\u{5e8}\u{5ea}\u{5d9} \u{5de}\u{5d7}\u{5dc}\u{5d5}\u{5dd}")
        ("\u{5e9}\u{5d9}\u{5e0}\u{5d4}"
          ∷ "\u{5ea}\u{5d7}\u{5d5}\u{5e9}\u{5d4} \u{5e8}\u{5e2}\u{5d4}" ∷ [])
        none none
    ∷ seed_row "2026-07-15" "12:40" (some "\u{5d4}\u{5e7}\u{5dc}\u{5d8}\u{5d4} (0:14)")
        ("\u{5e2}\u{5d1}\u{5d5}\u{5d3}\u{5d4}" ∷ "\u{5e2}\u{5d5}\u{5de}\u{5e1}" ∷ [])
        (some
          "\u{5e7}\u{5d9}\u{5d1}\u{5dc}\u{5ea}\u{5d9} \u{5db}\u{5de}\u{5d4} \u{5de}\u{5e9}\u{5d9}\u{5de}\u{5d5}\u{5ea} \u{5d1}\u{5d1}\u{5ea} \u{5d0}\u{5d7}\u{5ea} \u{5d5}\u{5d4}\u{5e8}\u{5d2}\u{5e9}\u{5ea}\u{5d9} \u{5e9}\u{5d4}\u{5db}\u{5d5}\u{5dc} \u{5e0}\u{5e1}\u{5d2}\u{5e8} \u{5e2}\u{5dc}\u{5d9}\u{5d9}. \u{5d9}\u{5e6}\u{5d0}\u{5ea}\u{5d9} \u{5dc}\u{5e9}\u{5d9}\u{5e8}\u{5d5}\u{5ea}\u{5d9}\u{5dd} \u{5d5}\u{5e0}\u{5e9}\u{5de}\u{5ea}\u{5d9} \u{5db}\u{5de}\u{5d4} \u{5d3}\u{5e7}\u{5d5}\u{5ea}.")
        (some 14)
    ∷ seed_row "2026-07-15" "19:30"
        (some
          "\u{5d1}\u{5d9}\u{5d8}\u{5dc}\u{5ea}\u{5d9} \u{5de}\u{5e4}\u{5d2}\u{5e9} \u{5e2}\u{5dd} \u{5d7}\u{5d1}\u{5e8}\u{5d9}\u{5dd}")
        ("\u{5d7}\u{5d1}\u{5e8}\u{5d4}" ∷ "\u{5d4}\u{5d9}\u{5de}\u{5e0}\u{5e2}\u{5d5}\u{5ea}" ∷ [])
        (some
          "\u{5db}\u{5ea}\u{5d1}\u{5ea}\u{5d9} \u{5e9}\u{5d0}\u{5e0}\u{5d9} \u{5dc}\u{5d0} \u{5de}\u{5e8}\u{5d2}\u{5d9}\u{5e9}\u{5d4} \u{5d8}\u{5d5}\u{5d1}, \u{5dc}\u{5de}\u{5e8}\u{5d5}\u{5ea} \u{5e9}\u{5e4}\u{5e9}\u{5d5}\u{5d8} \u{5dc}\u{5d0} \u{5d4}\u{5e6}\u{5dc}\u{5d7}\u{5ea}\u{5d9} \u{5dc}\u{5d4}\u{5d1}\u{5d9}\u{5d0} \u{5d0}\u{5ea} \u{5e2}\u{5e6}\u{5de}\u{5d9} \u{5dc}\u{5e6}\u{5d0}\u{5ea}.")
        none
    ∷ []
