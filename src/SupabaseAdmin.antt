-- ===== src/SupabaseAdmin.antt =====
-- app/services/supabase_admin.py: the removal of an account's Supabase identity.
use limon_backend.Base.{String, Option, none, some, ◌||◌, eqb, join, truthy, text_or, if◌then◌else◌}
use limon_backend.Runtime.Errors.{
  Result, ok, err, supabase_admin_error, supabase_admin_not_configured,
}
use limon_backend.Runtime.Wire.{delete, nothing, Reply, response, transport_error}
use limon_backend.Runtime.World.{Exec, pure, raise, lift, ◌>>=◌, send, settings_of}

-- `_send`: 200, 204 and 404 are success.
unfoldable pub deletion_reply : Reply → Result (Unit {0})
deletion_reply transport_error = err supabase_admin_error
deletion_reply (response r) =
    if eqb r.status_code 200 || eqb r.status_code 204 || eqb r.status_code 404
    then ok tt
    else err supabase_admin_error

unfoldable pub delete_at : Option String → String → Exec (Unit {0})
unfolding deletion_reply
delete_at none sub = pure tt
delete_at (some url) sub = do
  settings ← settings_of
  if truthy settings.supabase_service_role_key
      then (do
        reply ← send (record {
          method = delete;
          url = join url (join "/auth/v1/admin/users/" sub);
          token = text_or settings.supabase_service_role_key "";
          payload = nothing;
        })
        lift (deletion_reply reply))
      else raise supabase_admin_not_configured

unfoldable pub delete_auth_user : String → Exec (Unit {0})
unfolding delete_at
delete_auth_user sub = do settings ← settings_of; delete_at settings.supabase_url sub
