-- ===== src/Scripts/CreateTables.antt =====
-- scripts/supabase/gen_create_tables.py: the text of create_tables.sql, from the compiled statements of
-- the tables and of their indexes.
pub mod Stable
use limon_backend.Base.{
  ℕ, String, Bool, true, false, Option, none, some, List, [], ◌∷◌, ◌++◌, map, ◌&&◌, ◌||◌, join, eqb,
  leb, ltb, get_or, if◌then◌else◌,
}
use limon_backend.Schemas.Strip.{strip, rstrip}
use Prim.Native.Char.{Char, code}

unfoldable pub concat : List String → String
concat [] = ""
concat (s ∷ ss) = join s (concat ss)

abbrev pub header_lines : List String
header_lines =
    "-- LimON tables, for standing up a fresh Postgres database.\n" ∷ "--\n"
    ∷ "-- Run this FIRST on a new/empty database, then scripts/supabase/setup.sql (which\n"
    ∷ "-- adds RLS, replica identity, and the Realtime publication). Order within this\n"
    ∷ "-- file matters: users -> recordings -> tags -> events, by FK dependency.\n" ∷ "--\n"
    ∷ "-- WHY THIS FILE EXISTS. The app calls Base.metadata.create_all on startup, which\n"
    ∷ "-- would also build these tables -- but that requires a running app already wired\n"
    ∷ "-- to the new database. When moving to another Postgres, you want the schema in\n"
    ∷ "-- place before anything connects. This file is that, runnable in a SQL editor\n"
    ∷ "-- with nothing else set up.\n" ∷ "--\n"
    ∷ "-- NOT A MIGRATION. It only creates tables that do not exist; it will not add a\n"
    ∷ "-- column to an existing table. There are no migrations in this project (see\n"
    ∷ "-- spec/data-model.md), so schema changes against a live database are hand-applied\n"
    ∷ "-- ALTERs. Running this against a database that already has these tables errors,\n"
    ∷ "-- which is the intended safety.\n" ∷ "--\n"
    ∷ "-- KEEPING IT CURRENT. The SQLAlchemy models are the source of truth. Regenerate\n"
    ∷ "-- rather than hand-editing:\n"
    ∷ "--     uv run python scripts/supabase/gen_create_tables.py > scripts/supabase/create_tables.sql\n"
    ∷ "--\n" ∷ "-- Generated from the models on " ∷ []

-- `_HEADER.format(date=date)`
unfoldable pub header : String → String
unfolding concat
header date = concat (header_lines ++ date ∷ " (postgresql dialect).\n" ∷ [])

-- The characters that `str.splitlines` splits at.
unfoldable pub is_line_break : ℕ → Bool
is_line_break k =
    (leb 10 k && leb k 13) || (leb 28 k && leb k 30) || eqb k 0x85 || eqb k 0x2028 || eqb k 0x2029

abbrev first_in : Char → List String → List String
first_in c [] = String.◌∷◌ c String.[] ∷ []
first_in c (l ∷ ls) = String.◌∷◌ c l ∷ ls

-- `s.splitlines()`, by whether a carriage return stands just before.
unfoldable pub lines_after : Bool → String → List String
unfolding is_line_break
lines_after after_return String.[] = []
lines_after after_return (String.◌∷◌ c s) =
    let rest = lines_after (eqb (code c) 13) s in
    if after_return && eqb (code c) 10
    then rest
    else if is_line_break (code c)
    then "" ∷ rest
    else first_in c rest

-- `"\n".join(parts)`
unfoldable pub newline_join : List String → String
newline_join [] = ""
newline_join (p ∷ []) = p
newline_join (p ∷ q ∷ ps) = join p (join "\n" (newline_join (q ∷ ps)))

-- `_statement`, of the compiled text
unfoldable pub statement : String → String
unfolding lines_after newline_join
statement compiled = join (newline_join (map rstrip (lines_after false (strip compiled)))) ";"

-- An index: its name, and the compiled `CREATE INDEX`.
pub record Index : Type 0 where
  pub name : Option String
  pub create : String

-- A table: the compiled `CREATE TABLE`, and its indexes in the order that the set yields them.
pub record Table : Type 0 where
  pub create : String
  pub indexes : List Index

-- Python's order of texts, by code points.
unfoldable pub text_le : String → String → Bool
text_le String.[] t = true
text_le (String.◌∷◌ c s) String.[] = false
text_le (String.◌∷◌ c s) (String.◌∷◌ d t) =
    ltb (code c) (code d) || (eqb (code c) (code d) && text_le s t)

-- `i.name or ""`
abbrev pub index_key : Index → String
index_key i = get_or i.name ""

unfoldable pub insert_index : Index → List Index → List Index
unfolding text_le
insert_index i [] = i ∷ []
insert_index i (j ∷ js) =
    if text_le (index_key i) (index_key j) then i ∷ j ∷ js else j ∷ insert_index i js

-- `sorted(table.indexes, key=...)`
unfoldable pub sort_indexes : List Index → List Index
unfolding insert_index
sort_indexes [] = []
sort_indexes (i ∷ is) = insert_index i (sort_indexes is)

abbrev pub table_parts : Table → List String
table_parts t =
    statement t.create
    ∷ (map (λ (i : Index). statement i.create) (sort_indexes t.indexes) ++ "" ∷ [])

unfoldable pub parts_of : List Table → List String
unfolding statement sort_indexes
parts_of [] = []
parts_of (t ∷ ts) = table_parts t ++ parts_of ts

-- `render`, of the date and of `Base.metadata.sorted_tables`
unfoldable pub render : String → List Table → String
unfolding header parts_of newline_join
render date tables = newline_join (header date ∷ parts_of tables)
