-- ===== src/Auth/Tokens.antt =====
-- Which access tokens are accepted.
use limon_backend.Base.{
  ℕ, String, Option, none, some, ◌≡◌, ◌↔◌, refl, arith, ◌==◌, ◌||◌, inl, inr, Option-cases,
  if◌then◌else◌, is_some,
}
use limon_backend.Runtime.Errors.{Result, ok, http_error}
use limon_backend.Runtime.Ends.{Ends}
use limon_backend.Runtime.World.{Claims, Env, World, ◌>>=◌}
use limon_backend.Auth.{decode_token, decode_for, decode_with, key_for, or_unauthorized}

-- The key that a deployment trusts for an algorithm: the shared secret for HS256, the key that its
-- own project publishes for the two asymmetric ones, and none for any other.
abbrev pub trusted_key : Env → String → String → String → Option String
trusted_key e url token algorithm =
    if algorithm == "HS256"
    then e.settings.supabase_jwt_secret
    else if algorithm == "ES256" || algorithm == "RS256"
    then e.signing_key url token
    else none

-- The token names an algorithm, and verifies with the key that is trusted for it.
pub record Verified (e : Env) (token : String) (claims : Claims) : Type 0 where
  pub url : String
  pub algorithm : String
  pub key : String
  pub project : e.settings.supabase_url ≡ some url
  pub names : e.token_algorithm token ≡ some (some algorithm)
  pub trusted : trusted_key e url token algorithm ≡ some key
  pub verifies : e.verify_token token key algorithm "authenticated" ≡ some claims

-- The status of a refusal: 500 where no project is set, 401 otherwise.
abbrev pub refusal : Env → ℕ
refusal e = if is_some e.settings.supabase_url then 401 else 500

keyed :
    (url token algorithm : String) (e : Env) (w : World)
    → key_for e.settings url token algorithm e w
      ≡ (or_unauthorized (trusted_key e url token algorithm), w)
unfolding key_for ◌>>=◌
keyed url token algorithm e w = ground arith

-- What is made of a token.
abbrev pub Judged : Env → String → World → Result Claims × World → Type 0
Judged e token w r =
    Ends (λ claims w'. Verified e token claims × (w' ≡ w))
      (λ x w'. (x ≡ http_error (refusal e)) × (w' ≡ w)) r

decode_with-Judged :
    (url token : String) (named : Option String) (e : Env) (w : World)
    → e.settings.supabase_url ≡ some url
    → e.token_algorithm token ≡ some named
    → Judged e token w (decode_with e.settings url token named e w)
unfolding decode_with ◌>>=◌
decode_with-Judged url token none e w p h = ground arith
decode_with-Judged url token (some algorithm) e w p h =
    rw (keyed url token algorithm e w) (elim (Option-cases (trusted_key e url token algorithm)) [
      | inl n ↦ rw n (ground arith)
      | inr (key, k) ↦
          rw k (elim (Option-cases (e.verify_token token key algorithm "authenticated")) [
            | inl n ↦ rw n (ground arith)
            | inr (claims, v) ↦ rw v (
              record {
                url = url;
                algorithm = algorithm;
                key = key;
                project = p;
                names = h;
                trusted = k;
                verifies = v;
              },
              refl,
            )
          ])
    ])

decode_for-Judged :
    (project : Option String) (token : String) (e : Env) (w : World)
    → e.settings.supabase_url ≡ project
    → Judged e token w (decode_for e.settings project token e w)
unfolding decode_for ◌>>=◌
decode_for-Judged none token e w p = ground arith
decode_for-Judged (some url) token e w p = elim (Option-cases (e.token_algorithm token)) [
  | inl n ↦ rw n (ground arith)
  | inr (named, h) ↦ rw h (decode_with-Judged url token named e w p h)
]

decode_token-Judged :
    (token : String) (e : Env) (w : World) → Judged e token w (decode_token token e w)
unfolding decode_token ◌>>=◌
decode_token-Judged token e w = decode_for-Judged _ token e w refl

Verified-decode_token :
    (token : String) (claims : Claims) (e : Env) (w : World)
    → Verified e token claims
    → decode_token token e w ≡ (ok claims, w)
unfolding decode_token decode_for decode_with ◌>>=◌
Verified-decode_token token claims e w v =
    ground (arith, v.project, v.names, keyed v.url token v.algorithm e w, v.trusted, v.verifies)

accepted_by_rule :
    (e : Env) (token : String) (claims : Claims) (w : World) (r : Result Claims × World)
    → r ≡ (ok claims, w)
    → Judged e token w r
    → Verified e token claims
accepted_by_rule e token claims w r same h = (rw same at h).0

-- A token is accepted with some claims exactly if it verifies to them, for the audience
-- `authenticated`, with the key that is trusted for the algorithm that it names; every token that is
-- not accepted is refused with 401, or with 500 where the deployment has no project. No answer
-- changes the session or the trace.
pub decode_token_lem :
    (token : String) (claims : Claims) (e : Env) (w : World)
    → Judged e token w (decode_token token e w)
      × ((decode_token token e w ≡ (ok claims, w)) ↔ Verified e token claims)
decode_token_lem token claims e w = (
  decode_token-Judged token e w,
  (
    λ same. accepted_by_rule e token claims w _ same (decode_token-Judged token e w),
    Verified-decode_token token claims e w,
  ),
)
