-- ===== src/DemoData/LateRows.antt =====
-- The other rows of the demo history in app/services/demo_seed.py.
use limon_backend.Base.{none, some, List, [], ◌∷◌}
use limon_backend.DemoData.Table.{SeedRow, seed_row}

-- `_SEED_EVENTS`, the rows from 16 July on
unfoldable pub late_events : List SeedRow
late_events =
    seed_row "2026-07-16" "09:15"
      (some
        "\u{5e4}\u{5e7}\u{5e7} \u{5d1}\u{5d3}\u{5e8}\u{5da} \u{5dc}\u{5e2}\u{5d1}\u{5d5}\u{5d3}\u{5d4}")
      ("\u{5e0}\u{5e1}\u{5d9}\u{5e2}\u{5d4}" ∷ "\u{5e8}\u{5e2}\u{5e9}" ∷ []) none none
    ∷ seed_row "2026-07-16" "14:05" none
        ("\u{5e2}\u{5d1}\u{5d5}\u{5d3}\u{5d4}"
          ∷ "\u{5ea}\u{5d7}\u{5d5}\u{5e9}\u{5d4} \u{5e8}\u{5e2}\u{5d4}" ∷ [])
        none none
    ∷ seed_row "2026-07-16" "22:00"
        (some
          "\u{5d4}\u{5e6}\u{5dc}\u{5d7}\u{5ea}\u{5d9} \u{5dc}\u{5d4}\u{5d9}\u{5e8}\u{5d2}\u{5e2} \u{5dc}\u{5d1}\u{5d3}")
        ("\u{5d4}\u{5e6}\u{5dc}\u{5d7}\u{5d4}" ∷ [])
        (some
          "\u{5db}\u{5d9}\u{5d1}\u{5d9}\u{5ea}\u{5d9} \u{5d0}\u{5ea} \u{5d4}\u{5d8}\u{5dc}\u{5e4}\u{5d5}\u{5df}, \u{5e9}\u{5ea}\u{5d9}\u{5ea}\u{5d9} \u{5de}\u{5d9}\u{5dd} \u{5d5}\u{5d9}\u{5e9}\u{5d1}\u{5ea}\u{5d9} \u{5db}\u{5de}\u{5d4} \u{5d3}\u{5e7}\u{5d5}\u{5ea} \u{5d1}\u{5e9}\u{5e7}\u{5d8}.")
        none
    ∷ seed_row "2026-07-17" "10:50"
        (some
          "\u{5d9}\u{5dc}\u{5d3}\u{5d9}\u{5dd} \u{5e6}\u{5e2}\u{5e7}\u{5d5} \u{5d1}\u{5d7}\u{5d3}\u{5e8} \u{5d4}\u{5de}\u{5d3}\u{5e8}\u{5d2}\u{5d5}\u{5ea}")
        ("\u{5e8}\u{5e2}\u{5e9}" ∷ "\u{5d1}\u{5d9}\u{5ea}" ∷ []) none none
    ∷ seed_row "2026-07-17" "16:25" (some "\u{5d4}\u{5e7}\u{5dc}\u{5d8}\u{5d4} (0:10)")
        ("\u{5de}\u{5e9}\u{5e4}\u{5d7}\u{5d4}" ∷ "\u{5e8}\u{5d9}\u{5d1}" ∷ [])
        (some
          "\u{5d4}\u{5ea}\u{5e2}\u{5e6}\u{5d1}\u{5e0}\u{5ea}\u{5d9} \u{5d1}\u{5e9}\u{5d9}\u{5d7}\u{5d4} \u{5e2}\u{5dd} \u{5d0}\u{5d7}\u{5d5}\u{5ea}\u{5d9} \u{5d5}\u{5d4}\u{5e8}\u{5de}\u{5ea}\u{5d9} \u{5d0}\u{5ea} \u{5d4}\u{5e7}\u{5d5}\u{5dc}. \u{5d0}\u{5d7}\u{5e8} \u{5db}\u{5da} \u{5d4}\u{5e8}\u{5d2}\u{5e9}\u{5ea}\u{5d9} \u{5d0}\u{5e9}\u{5de}\u{5d4}.")
        (some 10)
    ∷ seed_row "2026-07-18" "08:30"
        (some
          "\u{5e7}\u{5de}\u{5ea}\u{5d9} \u{5e2}\u{5dd} \u{5db}\u{5d0}\u{5d1} \u{5e8}\u{5d0}\u{5e9}")
        ("\u{5ea}\u{5d7}\u{5d5}\u{5e9}\u{5d4} \u{5e8}\u{5e2}\u{5d4}"
          ∷ "\u{5d2}\u{5d5}\u{5e4}\u{5e0}\u{5d9}" ∷ [])
        none none
    ∷ seed_row "2026-07-18" "13:55"
        (some "\u{5e1}\u{5d5}\u{5e4}\u{5e8} \u{5e2}\u{5de}\u{5d5}\u{5e1}")
        ("\u{5e1}\u{5d5}\u{5e4}\u{5e8}" ∷ "\u{5e6}\u{5e4}\u{5d9}\u{5e4}\u{5d5}\u{5ea}" ∷ [])
        (some
          "\u{5d4}\u{5e9}\u{5d0}\u{5e8}\u{5ea}\u{5d9} \u{5d0}\u{5ea} \u{5d4}\u{5e2}\u{5d2}\u{5dc}\u{5d4} \u{5d5}\u{5d9}\u{5e6}\u{5d0}\u{5ea}\u{5d9} \u{5dc}\u{5e4}\u{5e0}\u{5d9} \u{5e9}\u{5e1}\u{5d9}\u{5d9}\u{5de}\u{5ea}\u{5d9} \u{5d0}\u{5ea} \u{5d4}\u{5e7}\u{5e0}\u{5d9}\u{5d5}\u{5ea}.")
        none
    ∷ seed_row "2026-07-18" "20:45"
        (some
          "\u{5d9}\u{5e9}\u{5d1}\u{5ea}\u{5d9} \u{5e2}\u{5dd} \u{5d7}\u{5d1}\u{5e8}\u{5d4} \u{5d1}\u{5d1}\u{5d9}\u{5ea} \u{5e7}\u{5e4}\u{5d4}")
        ("\u{5d7}\u{5d1}\u{5e8}\u{5d4}" ∷ "\u{5d4}\u{5e6}\u{5dc}\u{5d7}\u{5d4}" ∷ []) none none
    ∷ seed_row "2026-07-19" "09:40" none ("\u{5e9}\u{5d9}\u{5e0}\u{5d4}" ∷ []) none none
    ∷ seed_row "2026-07-19" "14:30"
        (some
          "\u{5d4}\u{5d8}\u{5dc}\u{5e4}\u{5d5}\u{5df} \u{5e6}\u{5dc}\u{5e6}\u{5dc} \u{5d1}\u{5dc}\u{5d9} \u{5d4}\u{5e4}\u{5e1}\u{5e7}\u{5d4}")
        ("\u{5e2}\u{5d1}\u{5d5}\u{5d3}\u{5d4}" ∷ "\u{5e2}\u{5d5}\u{5de}\u{5e1}" ∷ []) none none
    ∷ seed_row "2026-07-19" "23:20" (some "\u{5d4}\u{5e7}\u{5dc}\u{5d8}\u{5d4} (0:06)")
        ("\u{5e8}\u{5e2}\u{5e9}" ∷ [])
        (some
          "\u{5d9}\u{5e9} \u{5de}\u{5d5}\u{5d6}\u{5d9}\u{5e7}\u{5d4} \u{5d7}\u{5d6}\u{5e7}\u{5d4} \u{5de}\u{5d4}\u{5e8}\u{5d7}\u{5d5}\u{5d1} \u{5d5}\u{5d0}\u{5e0}\u{5d9} \u{5dc}\u{5d0} \u{5de}\u{5e6}\u{5dc}\u{5d9}\u{5d7}\u{5d4} \u{5dc}\u{5d4}\u{5d9}\u{5e8}\u{5d2}\u{5e2}.")
        (some 6)
    ∷ seed_row "2026-07-20" "07:25"
        (some
          "\u{5e8}\u{5e2}\u{5e9} \u{5e9}\u{5dc} \u{5de}\u{5e9}\u{5d0}\u{5d9}\u{5ea} \u{5d1}\u{5e8}\u{5d7}\u{5d5}\u{5d1}")
        ("\u{5e8}\u{5e2}\u{5e9}" ∷ "\u{5ea}\u{5d7}\u{5d5}\u{5e9}\u{5d4} \u{5e8}\u{5e2}\u{5d4}" ∷ [])
        none none
    ∷ seed_row "2026-07-20" "12:15"
        (some "\u{5d4}\u{5e6}\u{5d2}\u{5ea}\u{5d9} \u{5d1}\u{5d9}\u{5e9}\u{5d9}\u{5d1}\u{5d4}")
        ("\u{5e2}\u{5d1}\u{5d5}\u{5d3}\u{5d4}" ∷ "\u{5d4}\u{5e6}\u{5dc}\u{5d7}\u{5d4}" ∷ [])
        (some
          "\u{5d4}\u{5d9}\u{5d9}\u{5ea}\u{5d9} \u{5dc}\u{5d7}\u{5d5}\u{5e6}\u{5d4} \u{5dc}\u{5e4}\u{5e0}\u{5d9}, \u{5d0}\u{5d1}\u{5dc} \u{5d4}\u{5e6}\u{5dc}\u{5d7}\u{5ea}\u{5d9} \u{5dc}\u{5e1}\u{5d9}\u{5d9}\u{5dd} \u{5d0}\u{5ea} \u{5d4}\u{5d4}\u{5e6}\u{5d2}\u{5d4} \u{5db}\u{5de}\u{5d5} \u{5e9}\u{5ea}\u{5db}\u{5e0}\u{5e0}\u{5ea}\u{5d9}.")
        none
    ∷ seed_row "2026-07-20" "18:35" none ("\u{5de}\u{5e9}\u{5e4}\u{5d7}\u{5d4}" ∷ []) none none
    ∷ seed_row "2026-07-21" "08:00" (some "\u{5d4}\u{5e7}\u{5dc}\u{5d8}\u{5d4} (0:13)")
        ("\u{5e0}\u{5e1}\u{5d9}\u{5e2}\u{5d4}"
          ∷ "\u{5ea}\u{5d7}\u{5d5}\u{5e9}\u{5d4} \u{5e8}\u{5e2}\u{5d4}" ∷ [])
        (some
          "\u{5de}\u{5d9}\u{5e9}\u{5d4}\u{5d5} \u{5e6}\u{5e4}\u{5e8} \u{5de}\u{5d0}\u{5d7}\u{5d5}\u{5e8}\u{5d9}\u{5d9} \u{5d5}\u{5d4}\u{5e8}\u{5d2}\u{5e9}\u{5ea}\u{5d9} \u{5e9}\u{5d4}\u{5d2}\u{5d5}\u{5e3} \u{5e9}\u{5dc}\u{5d9} \u{5e0}\u{5e0}\u{5e2}\u{5dc}. \u{5e2}\u{5e6}\u{5e8}\u{5ea}\u{5d9} \u{5d1}\u{5e6}\u{5d3} \u{5e2}\u{5d3} \u{5e9}\u{5d4}\u{5e0}\u{5e9}\u{5d9}\u{5de}\u{5d4} \u{5e0}\u{5e8}\u{5d2}\u{5e2}\u{5d4}.")
        (some 13)
    ∷ seed_row "2026-07-21" "15:10"
        (some
          "\u{5d1}\u{5d9}\u{5e7}\u{5d5}\u{5e8} \u{5d0}\u{5e6}\u{5dc} \u{5d4}\u{5e8}\u{5d5}\u{5e4}\u{5d0}")
        ("\u{5d4}\u{5de}\u{5ea}\u{5e0}\u{5d4}" ∷ "\u{5d2}\u{5d5}\u{5e4}\u{5e0}\u{5d9}" ∷ []) none
        none
    ∷ seed_row "2026-07-21" "21:50"
        (some
          "\u{5d5}\u{5d9}\u{5db}\u{5d5}\u{5d7} \u{5e2}\u{5dd} \u{5d1}\u{5df} \u{5d4}\u{5d6}\u{5d5}\u{5d2}")
        ("\u{5de}\u{5e9}\u{5e4}\u{5d7}\u{5d4}" ∷ "\u{5e8}\u{5d9}\u{5d1}" ∷ [])
        (some
          "\u{5e0}\u{5d9}\u{5e1}\u{5d9}\u{5ea}\u{5d9} \u{5dc}\u{5d4}\u{5e1}\u{5d1}\u{5d9}\u{5e8} \u{5e9}\u{5d0}\u{5e0}\u{5d9} \u{5e6}\u{5e8}\u{5d9}\u{5db}\u{5d4} \u{5e9}\u{5e7}\u{5d8}, \u{5d0}\u{5d1}\u{5dc} \u{5d6}\u{5d4} \u{5d9}\u{5e6}\u{5d0} \u{5db}\u{5e2}\u{5e1}.")
        none
    ∷ seed_row "2026-07-22" "09:35"
        (some "\u{5e7}\u{5e0}\u{5d9}\u{5d5}\u{5ea} \u{5d1}\u{5e1}\u{5d5}\u{5e4}\u{5e8}")
        ("\u{5e1}\u{5d5}\u{5e4}\u{5e8}" ∷ "\u{5e6}\u{5e4}\u{5d9}\u{5e4}\u{5d5}\u{5ea}" ∷ []) none
        none
    ∷ seed_row "2026-07-22" "16:40"
        (some
          "\u{5d4}\u{5e6}\u{5dc}\u{5d7}\u{5ea}\u{5d9} \u{5dc}\u{5e2}\u{5e0}\u{5d5}\u{5ea} \u{5dc}\u{5d4}\u{5d5}\u{5d3}\u{5e2}\u{5d4} \u{5e9}\u{5d3}\u{5d7}\u{5d9}\u{5ea}\u{5d9}")
        ("\u{5d4}\u{5e6}\u{5dc}\u{5d7}\u{5d4}" ∷ []) none none
    ∷ seed_row "2026-07-22" "22:30" none
        ("\u{5e9}\u{5d9}\u{5e0}\u{5d4}"
          ∷ "\u{5ea}\u{5d7}\u{5d5}\u{5e9}\u{5d4} \u{5e8}\u{5e2}\u{5d4}" ∷ [])
        none none
    ∷ seed_row "2026-07-23" "18:01"
        (some "\u{5e7}\u{5e0}\u{5d9}\u{5d5}\u{5ea} \u{5d1}\u{5e1}\u{5d5}\u{5e4}\u{5e8}") ([]) none
        none
    ∷ seed_row "2026-07-23" "21:13" (some "\u{5d4}\u{5e7}\u{5dc}\u{5d8}\u{5d4} (0:12)")
        ("\u{5de}\u{5e9}\u{5e4}\u{5d7}\u{5d4}" ∷ [])
        (some
          "\u{5d4}\u{5d9}\u{5d4} \u{5dc}\u{5d9} \u{5e8}\u{5d9}\u{5d1} \u{5e2}\u{5dd} \u{5d0}\u{5de}\u{5d0} \u{5d1}\u{5d8}\u{5dc}\u{5e4}\u{5d5}\u{5df}. \u{5d0}\u{5e0}\u{5d9} \u{5e2}\u{5d3}\u{5d9}\u{5d9}\u{5df} \u{5de}\u{5d5}\u{5e6}\u{5e4}\u{5ea} \u{5d5}\u{5dc}\u{5d0} \u{5de}\u{5d1}\u{5d9}\u{5e0}\u{5d4} \u{5dc}\u{5de}\u{5d4} \u{5d4}\u{5d2}\u{5d1}\u{5ea}\u{5d9} \u{5db}\u{5db}\u{5d4}.")
        (some 12)
    ∷ seed_row "2026-07-23" "23:26" none
        ("\u{5ea}\u{5d7}\u{5d5}\u{5e9}\u{5d4} \u{5e8}\u{5e2}\u{5d4}" ∷ []) none none
    ∷ seed_row "2026-07-24" "10:23" (some "\u{5e7}\u{5e0}\u{5d9}\u{5d5}\u{5ea}")
        ("\u{5e8}\u{5e2}\u{5e9}" ∷ "\u{5e1}\u{5d5}\u{5e4}\u{5e8}" ∷ []) none none
    ∷ seed_row "2026-07-25" "04:36" (some "\u{5d4}\u{5e7}\u{5dc}\u{5d8}\u{5d4} (0:07)") ([])
        (some
          "\u{5d4}\u{5ea}\u{5e2}\u{5d5}\u{5e8}\u{5e8}\u{5ea}\u{5d9} \u{5de}\u{5e8}\u{5e2}\u{5e9} \u{5d1}\u{5d7}\u{5d5}\u{5e5} \u{5d5}\u{5d4}\u{5dc}\u{5d1} \u{5d4}\u{5ea}\u{5d7}\u{5d9}\u{5dc} \u{5dc}\u{5d3}\u{5e4}\u{5d5}\u{5e7}. \u{5e7}\u{5e9}\u{5d4} \u{5dc}\u{5d9} \u{5dc}\u{5d7}\u{5d6}\u{5d5}\u{5e8} \u{5dc}\u{5d9}\u{5e9}\u{5d5}\u{5df}.")
        (some 7)
    ∷ seed_row "2026-07-25" "15:17" none
        ("\u{5de}\u{5e9}\u{5e4}\u{5d7}\u{5d4}" ∷ "\u{5e8}\u{5d9}\u{5d1}" ∷ []) none none
    ∷ seed_row "2026-07-25" "19:42"
        (some
          "\u{5e8}\u{5e2}\u{5e9} \u{5e9}\u{5dc} \u{5d0}\u{5d5}\u{5e4}\u{5e0}\u{5d5}\u{5e2} \u{5de}\u{5d4}\u{5e8}\u{5d7}\u{5d5}\u{5d1}")
        ("\u{5e8}\u{5e2}\u{5e9}" ∷ "\u{5ea}\u{5d7}\u{5d5}\u{5e9}\u{5d4} \u{5e8}\u{5e2}\u{5d4}" ∷ [])
        none none
    ∷ []
