-- ===== src/Examples/Demo.antt =====
-- The demo history of an account that has no events.
use limon_backend.Base.{[], ◌∷◌, ◌≡◌, refl, join}
use limon_backend.Models.{Db}
use limon_backend.Models.Table.{find}
use limon_backend.Runtime.Errors.{ok, err, http_error}
use limon_backend.Runtime.Ends.{Ends}
use limon_backend.Runtime.World.{start}
use limon_backend.DemoData.Clock.{occurred_at, codes, moment_of, days_before, days_in, ordinal}
use limon_backend.DemoData.Seed.{seed_demo_data}
use limon_backend.DemoData.Seeded.{Seeds, seed_demo_data-Seeds}
use limon_backend.Routers.Users.{create_my_demo_data}
use limon_backend.Routers.Seeding.{create_my_demo_data_guarded}
use limon_backend.Examples.{env, user, tag}

-- The account has a tag of its own.
abbrev empty_account : Db
empty_account = record { users = user ∷ []; events = []; recordings = []; tags = tag ∷ [] }

morning : occurred_at "2026-07-09" "08:10" ≡ ok 1783573800000000
unfolding occurred_at codes moment_of days_before days_in ordinal join
morning = refl

seed_demo_data-Seeds_example :
    Ends
      (Seeds user empty_account)
      (λ _ w. w.trace ≡ (start empty_account).trace)
      (seed_demo_data user env (start empty_account))
seed_demo_data-Seeds_example = seed_demo_data-Seeds user env (start empty_account)

create_my_demo_data_guarded_example :
    Ends
      (λ _ w. create_my_demo_data user env w ≡ (err (http_error 409), w))
      (λ _ w. w.trace ≡ (start empty_account).trace)
      (create_my_demo_data user env (start empty_account))
unfolding find
create_my_demo_data_guarded_example = create_my_demo_data_guarded user env env (start empty_account)
