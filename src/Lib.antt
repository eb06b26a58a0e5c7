-- ===== src/Lib.antt =====
-- LimON's backend: users, their tags and events, audio recordings and their transcripts.
--
-- The program is a web service over four tables (app/models): users, tags, events and recordings. An
-- audio event has a recording, whose audio a client uploads under a signed URL (app/services/storage.py).
-- The storage announces the upload to a route (app/routers/internal.py), which queues a task; the
-- task's route claims the recording and submits its audio to a transcriber box
-- (app/services/transcription.py, app/services/transcriber.py). The box calls back, and the callback
-- drains what is ready, stores it, acknowledges it, and drives stale recordings again. A text event, or
-- a transcript, may start tagging (app/services/tagging.py, app/services/tagger.py).
--
-- Files, with the code that each is about:
--   Base        lists, options, texts and Boolean tests that the others share
--   Settings    app/core/config.py; Settings/Cors its reading of the allowed origins
--   Models      app/models; Models/Table has the queries and updates, Models/Keys the primary keys
--   Runtime     the monad of the services: a session's rows, and the trace of all that left the process
--   Transcriber app/services/transcriber.py; AudioStorage app/services/audio_storage.py;
--   TaskQueue   app/services/task_queue.py; Tagger app/services/tagger.py;
--   Tagging     app/services/tagging.py; SupabaseAdmin app/services/supabase_admin.py
--   Transcription  app/services/transcription.py: Submit (run_transcription), Collect
--               (collect_transcripts), Sweep (sweep) and Rows (queries and row helpers); Plan is a
--               description of collection without the session, that Refines holds the code against;
--               the other children are proofs about them
--   Storage     app/services/storage.py: keys, deletion, presign_put and who signs it
--   Tags, Events, Users   the services of these names
--   Blobs       the class GCSBlobStorage of app/services/storage.py, and scripts/smoke_gcs.py
--   Schemas     app/schemas: the bodies of requests
--   DemoData    app/services/demo_seed.py: its tables, its clock and the seeding
--   Auth        app/core/auth.py
--   Routers     app/routers
--   Service     app/main.py and app/db/session.py: the requests, each in a session of its own, and the
--               traces that they lead to; its children show what every step of them keeps
--   Scripts     Roundtrip is scripts/transcriber/roundtrip.py, with proofs in its children;
--               SeedTestEvent is scripts/seed_test_event.py; CreateTables is
--               scripts/supabase/gen_create_tables.py, TaggingManual scripts/test_tagging_manual.py
--   Examples    a deployment, its rows and its requests, at which the theorems are applied
--
-- A call is a function of an environment and a world, to a result and a world. The world has the rows
-- that the session sees and a trace of steps: commits with the rows that they stored, requests, tasks,
-- reads and deletions of audio. What is stored is what the last commit of the trace holds. A service
-- outside the program answers through a field of the environment, a function of the trace, so it may
-- answer differently each time. `settings`, the clock and fresh ids are fields of it too. An exception
-- is a value of Runtime.Errors.Error, and what a session was changed to before an exception stays.
--
-- Bounds: the loop over the box's pages is by the ten rounds that the code allows, so it ends without
-- fuel. The polling loop of the round-trip script has no bound in the code but its deadline; it is by
-- rounds, and as many rounds as intervals make up the timeout, and one more, are enough on a clock
-- that is not set back. Every other loop is over a list. Times are in microseconds, of unbounded size.
--
-- Simplifications. The session is the list of rows that its queries see: a row that it read is not
-- kept apart from the table. A commit stores all of them; it may fail, or refuse
-- an optional text of an event, or an error, that is longer than its column. Commits of other
-- sessions are modelled by Transcription/Race only, as steps between two attempts or two drains;
-- Service serves requests one after another. Unique keys, the lengths of the other columns, and
-- foreign keys beyond the deletion of an account, are not modelled; the branch for a lost race in the
-- creation of a tag is translated, but this database never takes it. The clients of the cloud's queue,
-- and of its storage where an upload is signed or the smoke test runs, are there: their construction
-- does not fail. The lengths of time in the settings, floats in the code, are natural numbers, of
-- microseconds for the two ages of stale rows and of seconds for a recording. Two readings of the
-- clock with no step between them
-- are the same. A row that an update writes gets a new `updated_at` though no field changes. The
-- JSON that the box and the model answer is read into records of the members that the program
-- reads. A change of the session that an exception of the same loop drops with the request, in the
-- deletion of a tag, is not made.
--
-- Not modelled: the framework's parsing of JSON and its answers' models (app/schemas); log lines, the
-- wiring of the application (app/dependencies.py, and app/main.py and app/db beyond requests and
-- sessions), and the other scripts.
-- scripts/verify_gcs_upload.py calls a function that app/services/storage.py does not have.
pub mod Base
pub mod Settings
pub mod Models
pub mod Runtime
pub mod Transcriber
pub mod AudioStorage
pub mod TaskQueue
pub mod Tagging
pub mod Transcription
pub mod Storage
pub mod Tagger
pub mod Tags
pub mod Events
pub mod SupabaseAdmin
pub mod Users
pub mod DemoData
pub mod Schemas
pub mod Blobs
pub mod Auth
pub mod Routers
pub mod Service
pub mod Scripts
pub mod Examples
