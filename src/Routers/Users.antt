-- ===== src/Routers/Users.antt =====
-- app/routers/users.py: the routes of the authenticated account.
use limon_backend.Base.{ℕ, Bool, true, false}
use limon_backend.Models.{User}
use limon_backend.Runtime.Errors.{
  Error, http_error, supabase_admin_error, supabase_admin_not_configured, account_deletion,
}
use limon_backend.Runtime.World.{Exec, pure, raise, try, ◌>>=◌, ◌>>◌}
use limon_backend.Events.{has_events}
use limon_backend.DemoData.Seed.{seed_demo_data}
use limon_backend.Users
use limon_backend.Users.{UserUpdate}

unfoldable pub get_me : User → Exec User
get_me user = pure user

unfoldable pub update_me : User → UserUpdate → Exec User
update_me user payload = Users.update_user user payload

-- An incomplete clean-up answers 502.
unfoldable pub deletion_to_502 : Error → Exec ℕ
deletion_to_502 supabase_admin_error = raise (http_error 502)
deletion_to_502 supabase_admin_not_configured = raise (http_error 502)
deletion_to_502 account_deletion = raise (http_error 502)
deletion_to_502 x = raise x

unfoldable pub delete_me : User → Exec ℕ
unfolding deletion_to_502
delete_me user = try (do Users.delete_account user.id; pure 204) deletion_to_502

-- `HTTPException` 409 for an account that has events.
unfoldable pub seed_if_empty : User → Bool → Exec (ℕ × User)
seed_if_empty user true = raise (http_error 409)
seed_if_empty user false = do seeded ← seed_demo_data user; pure (201, seeded)

unfoldable pub create_my_demo_data : User → Exec (ℕ × User)
unfolding seed_if_empty
create_my_demo_data user = do occupied ← has_events user.id; seed_if_empty user occupied
