-- ===== src/Examples/Tools.antt =====
-- The events of scripts/seed_test_event.py, the allowed origins of a deployment, and the text of
-- create_tables.sql.
use limon_backend.Base.{
  String, List, some, [], ◌∷◌, ◌≡◌, refl, eqb, comma_join, join, code_free, starts_with, is_space,
  if◌then◌else◌,
}
use limon_backend.Models.{State}
use limon_backend.Models.Table.{find}
use limon_backend.Runtime.Errors.{Result, ok, err, value_error}
use limon_backend.Runtime.Ends.{Ends}
use limon_backend.Runtime.World.{Env, durable}
use limon_backend.Schemas.Strip.{strip, lstrip, rstrip}
use limon_backend.Settings.Cors.{text, parse_cors_origins, IsOrigin, parse_cors_origins-comma_join}
use limon_backend.Tagging.Run.{run_tagging}
use limon_backend.Scripts.CreateTables.{
  Index, Table, statement, lines_after, newline_join, is_line_break, text_le, insert_index,
  sort_indexes, render,
}
use limon_backend.Scripts.CreateTables.Stable.{done, table, swap, render-SameTables}
use limon_backend.Scripts.SeedTestEvent.{seed_test_event}
use limon_backend.Scripts.SeedTestEvent.Taggable.{Attempts, Raised, seed_test_event-Attempts}
use limon_backend.Examples.{env, session}

abbrev sample_env : Env
sample_env = record env {
  new_id = λ t n. if eqb n 6 then "event-a" else if eqb n 7 then "event-b" else "manual";
}

seed_test_event-Attempts_example :
    Ends
      (λ ids w'.
        (w'.db ≡ durable w'.trace)
        × Ends Attempts Raised (run_tagging ids.0 env w')
        × Ends Attempts Raised (run_tagging ids.1 env w'))
      (λ x w'. durable w'.trace ≡ durable (session State.done).trace)
      (seed_test_event sample_env (session State.done))
unfolding find
seed_test_event-Attempts_example =
    seed_test_event-Attempts sample_env (session State.done) refl refl refl env

-- A JSON parser that takes nothing.
abbrev refuses : String → Result (List String)
refuses s = err value_error

https_a-IsOrigin : IsOrigin "https://a"
unfolding strip lstrip rstrip code_free is_space
https_a-IsOrigin = record { filled = refl; stripped = refl; one = refl }

https_b-IsOrigin : IsOrigin "https://b"
unfolding strip lstrip rstrip code_free is_space
https_b-IsOrigin = record { filled = refl; stripped = refl; one = refl }

abbrev origins : List String
origins = "https://a" ∷ "https://b" ∷ []

parse_cors_origins-comma_join_example :
    parse_cors_origins refuses (text (comma_join origins)) ≡ ok origins
unfolding comma_join join starts_with
parse_cors_origins-comma_join_example =
    parse_cors_origins-comma_join refuses origins (https_a-IsOrigin, (https_b-IsOrigin, tt)) refl

-- Spaces and empty parts go.
untidy_origins : parse_cors_origins refuses (text " https://a ,https://b,") ≡ ok origins
unfolding parse_cors_origins starts_with strip
untidy_origins = refl

abbrev event_index : Index
event_index = record { name = some "ix_events_user_id"; create = "CREATE INDEX ix_events_user_id" }

abbrev start_index : Index
start_index = record { name = some "ix_events_start"; create = "CREATE INDEX ix_events_start" }

abbrev events_table : List Index → Table
events_table indexes = record { create = "CREATE TABLE events"; indexes = indexes }

render-SameTables_example :
    render "2026-01-02" (events_table (event_index ∷ start_index ∷ []) ∷ [])
    ≡ render "2026-01-02" (events_table (start_index ∷ event_index ∷ []) ∷ [])
render-SameTables_example =
    render-SameTables "2026-01-02" (events_table (event_index ∷ start_index ∷ []) ∷ [])
      (events_table (start_index ∷ event_index ∷ []) ∷ [])
      (table "CREATE TABLE events" (swap event_index start_index refl) done)

-- The compiler's blank after a comma goes, and the text ends with a semicolon.
one_statement :
    statement "\nCREATE TABLE t (\n\tid INT, \n\tname TEXT\n)\n\n"
    ≡ "CREATE TABLE t (\n\tid INT,\n\tname TEXT\n);"
unfolding statement lines_after newline_join strip lstrip rstrip code_free is_space is_line_break
    join
one_statement = refl

-- The indexes come out by name.
by_name : sort_indexes (event_index ∷ start_index ∷ []) ≡ start_index ∷ event_index ∷ []
unfolding sort_indexes insert_index text_le
by_name = refl
