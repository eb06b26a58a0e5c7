-- ===== src/Auth.antt =====
-- app/core/auth.py: the verification of access tokens, and accounts on first sight.
pub mod Tokens
use limon_backend.Base.{
  ℕ, String, Bool, true, false, Option, none, some, ◌==◌, ◌||◌, truthy, text_or, if◌then◌else◌,
}
use limon_backend.Models.{User}
use limon_backend.Runtime.Errors.{Error, Result, ok, err, http_error}
use limon_backend.Runtime.World.{Claims, Exec, pure, raise, lift, ask, ◌>>=◌, settings_of}
use limon_backend.Settings.{Settings}
use limon_backend.Users.{get_or_create_user}

-- `_unauthorized`
abbrev pub unauthorized : Error
unauthorized = http_error 401

abbrev pub or_unauthorized : {A : Type 0} → Option A → Result A
or_unauthorized none = err unauthorized
or_unauthorized (some a) = ok a

-- The key for an algorithm: the shared secret, or the one that the project publishes.
unfoldable pub key_for : Settings → String → String → String → Exec String
key_for settings url token algorithm =
    if algorithm == "HS256"
    then lift (or_unauthorized settings.supabase_jwt_secret)
    else if algorithm == "ES256" || algorithm == "RS256"
    then (do key ← ask (λ e _. e.signing_key url token); lift (or_unauthorized key))
    else raise unauthorized

unfoldable pub decode_with : Settings → String → String → Option String → Exec Claims
decode_with settings url token none = raise unauthorized
decode_with settings url token (some algorithm) = do
  key ← key_for settings url token algorithm
  claims ← ask (λ e _. e.verify_token token key algorithm "authenticated")
  lift (or_unauthorized claims)

-- A deployment with no project is an error of the server.
unfoldable pub decode_for : Settings → Option String → String → Exec Claims
decode_for settings none token = raise (http_error 500)
decode_for settings (some url) token = do
  header ← ask (λ e _. e.token_algorithm token)
  algorithm ← lift (or_unauthorized header)
  decode_with settings url token algorithm

unfoldable pub decode_token : String → Exec Claims
decode_token token = do settings ← settings_of; decode_for settings settings.supabase_url token

-- `a or b` on optional texts
abbrev pub first_text : Option String → Option String → Option String
first_text a b = if truthy a then a else b

unfoldable pub user_of : Claims → Exec User
user_of claims =
    if truthy claims.sub
    then get_or_create_user (text_or claims.sub "") (text_or claims.provider "supabase")
        claims.email (first_text claims.full_name claims.name)
    else raise unauthorized

unfoldable pub get_current_user : Option String → Exec User
get_current_user none = raise unauthorized
get_current_user (some token) = do claims ← decode_token token; user_of claims
