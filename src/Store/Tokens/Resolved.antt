-- ===== src/Store/Tokens/Resolved.antt =====
-- A personal API key from its creation to its first use.

use Prim.Native.String.{String, ◌++◌}
use Prim.Native.String.append.{cons as cons_append}
use mathlib.Core.Path.{subst}
use mlops.Base.{List, ◌∷◌, ℕ, ◌<◌, ◌≡◌, refl, sym, true, inl, inr, some, none, eq_refl, arith}
use mlops.Base.Text.{has_prefix}
use mlops.Api.Value.{Time}
use mlops.Api.Access.{ApiToken, CreateApiTokenRequest, CreatedApiToken}
use mlops.Store.{Outcome-cases, State, Clock, returned, record_event}
use mlops.Store.Tokens.{
  Crypto, Random, validate_token_request, first_four, generate_api_token, issued, create_api_token,
  token_matches, accepts, use_at, resolve_api_token,
}

has_prefix-append : (p s : String) → has_prefix (p ++ s) p ≡ true
unfolding has_prefix
has_prefix-append String.[] s = refl
has_prefix-append (String.◌∷◌ c p) s =
    let unfolded : (String.◌∷◌ c p ++ s) ≡ String.◌∷◌ c (p ++ s) = cons_append c p s in
    let shorter : has_prefix (String.◌∷◌ c (p ++ s)) (String.◌∷◌ c p) ≡ true =
      ground (arith, has_prefix-append p s) in
    subst (λ t. has_prefix t (String.◌∷◌ c p) ≡ true) (sym unfolded) shorter

module _ (crypto : Crypto) where
  -- The key that `CreateAPIToken` makes, and its secret.
  abbrev pub made : Clock → List ℕ × List ℕ → String → CreateApiTokenRequest → CreatedApiToken
  made clock bytes subject v =
      let g = generate_api_token crypto bytes.0 bytes.1 in
      record { token = issued (clock 0) subject v g; secret = g.secret }

  issued_accepts :
      (clock : Clock) (bytes : List ℕ × List ℕ) (subject : String) (v : CreateApiTokenRequest)
      (now : Time)
      → now < (made clock bytes subject v).token.expires_at
      → accepts crypto now (made clock bytes subject v).secret (made clock bytes subject v).token
        ≡ true
  unfolding issued generate_api_token token_matches
  issued_accepts clock bytes subject v now early =
      rw
        (
          has_prefix-append (("nxs_" ++ crypto.hex (first_four bytes.1)) ++ "_")
              (crypto.base64_url bytes.0),
          eq_refl (
              crypto.hex (
                crypto.sha256 (
                  (("nxs_" ++ crypto.hex (first_four bytes.1)) ++ "_")
                  ++ crypto.base64_url bytes.0))),
        )
        (ground arith)

  front_resolves :
      (now : Time) (secret : String) (token : ApiToken) (ts : List ApiToken) (s : State)
      → s.api_tokens ≡ token ∷ ts
      → accepts crypto now secret token ≡ true
      → (resolve_api_token crypto now secret s).1 ≡ returned (use_at now token)
  unfolding resolve_api_token
  front_resolves now secret token ts s e a = rw (e, a, resolve_api_token) refl

  -- The secret that `CreateAPIToken` hands out resolves, at any time before the key expires, to the
  -- key that it made, with the time of its use set.
  pub create_api_token-resolve_api_token :
      (clock : Clock) (random : Random) (subject : String) (req : CreateApiTokenRequest) (s : State)
      (now : Time) {created : CreatedApiToken}
      → (create_api_token crypto clock random subject req s).1 ≡ returned created
      → now < created.token.expires_at
      → (resolve_api_token crypto now created.secret
          (create_api_token crypto clock random subject req s).0).1
        ≡ returned (use_at now created.token)
  unfolding create_api_token record_event
  create_api_token-resolve_api_token clock none subject req s now {created} h early =
      elim (Outcome-cases (validate_token_request req)) [
        | inl (e, p) ↦ ground arith
        | inr (v, p) ↦ ground arith
      ]
  create_api_token-resolve_api_token clock (some bytes) subject req s now {created} h early =
      elim (Outcome-cases (validate_token_request req)) [
        | inl (e, p) ↦ ground arith
        | inr (v, p) ↦
            let same : made clock bytes subject v ≡ created = ground arith in
            subst
              (λ c.
                now < c.token.expires_at
                → (resolve_api_token crypto now c.secret
                    (create_api_token crypto clock (some bytes) subject req s).0).1
                  ≡ returned (use_at now c.token))
              same
              (λ early'.
                front_resolves now (made clock bytes subject v).secret
                  (made clock bytes subject v).token s.api_tokens
                  (create_api_token crypto clock (some bytes) subject req s).0
                  (rw (p, create_api_token) refl) (issued_accepts clock bytes subject v now early'))
              early
      ]
