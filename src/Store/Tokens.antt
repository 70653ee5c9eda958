-- ===== src/Store/Tokens.antt =====
-- go/internal/store/tokens.go: personal API keys. Hashing, encoding and random bytes are those of
-- Go's crypto and encoding packages, parameters here.
pub mod Revoked
pub mod Resolved
use Prim.Native.String.{◌++◌}
use mlops.Base.{
  ℕ, ◌+◌, ◌*◌, String, Bool, true, false, List, [], ◌∷◌, Option, none, some, ◌==◌, ◌||◌, ◌&&◌, not,
  is_nil, ltb, if◌then◌else◌,
}
use mlops.Base.First.{find_first, update_first}
use mlops.Base.Int.{ℤ, pos, pos_part, ltb_ℤ}
use mlops.Base.Text.{trim_space, contains, has_prefix, byte_length}
use mlops.Api.Value.{Time, Items, nil, cons, text, slice, time}
use mlops.Api.Access.{ApiToken, CreateApiTokenRequest, CreatedApiToken}
use mlops.Store.{
  State, Outcome, refused, returned, not_found, message, invalid_scope, rand_failed, Clock,
  record_event,
}
use mlops.Store.Access.{unique, valid_services}

-- `hex.EncodeToString`, `base64.RawURLEncoding.EncodeToString` and `sha256.Sum256`.
pub record Crypto : Type 0 where
  pub hex : List ℕ → String
  pub base64_url : List ℕ → String
  pub sha256 : String → List ℕ

-- The 32 bytes and the 8 bytes that `rand.Read` fills in, `none` where it fails.
abbrev pub Random : Type 0
Random = Option (List ℕ × List ℕ)

abbrev is_invalid_scope : String → Bool
is_invalid_scope service =
    not (contains valid_services service) || service == "workbench" || service == "ide"

-- `validateTokenRequest`
unfoldable pub validate_token_request : CreateApiTokenRequest → Outcome CreateApiTokenRequest
validate_token_request raw =
    let req = record raw {
      name = trim_space raw.name;
      services = unique raw.services;
      project_ids = unique raw.project_ids;
    } in
    if ltb (byte_length req.name) 3
    then refused (message "token name must contain at least 3 characters")
    else if is_nil req.services
    then refused (message "at least one service scope is required")
    else if ltb_ℤ req.expires_in_days (pos 1) || ltb_ℤ (pos 365) req.expires_in_days
    then refused (message "expiry must be between 1 and 365 days")
    else elim (find_first is_invalid_scope req.services) [
      | some service ↦ refused (invalid_scope service)
      | none ↦ returned req
    ]

pub record Generated : Type 0 where
  pub id_value : String
  pub prefix : String
  pub secret : String
  pub hash : String

-- The first four bytes, `idRandom[:4]`.
unfoldable pub first_four : List ℕ → List ℕ
first_four (a ∷ b ∷ c ∷ d ∷ _) = a ∷ b ∷ c ∷ d ∷ []
first_four bytes = bytes

-- `generateAPIToken`, where `rand.Read` succeeds.
unfoldable pub generate_api_token : Crypto → List ℕ → List ℕ → Generated
generate_api_token crypto random id_random =
    let prefix = "nxs_" ++ crypto.hex (first_four id_random) in
    let secret = (prefix ++ "_") ++ crypto.base64_url random in
    record {
      id_value = "tok-" ++ crypto.hex id_random;
      prefix = prefix;
      secret = secret;
      hash = crypto.hex (crypto.sha256 secret);
    }

-- `tokenMatches`
unfoldable pub token_matches : Crypto → ApiToken → String → Bool
token_matches crypto stored secret = stored.secret_hash == crypto.hex (crypto.sha256 secret)

texts : List String → Items
texts [] = nil
texts (x ∷ xs) = cons (text x) (texts xs)

-- The key that `CreateAPIToken` stores. A day has 86400 seconds; 365 of them, in nanoseconds, stay
-- far below 2^63.
unfoldable pub issued : Time → String → CreateApiTokenRequest → Generated → ApiToken
issued now subject req made = record {
  id = made.id_value;
  subject = subject;
  name = req.name;
  prefix = made.prefix;
  secret_hash = made.hash;
  services = req.services;
  project_ids = req.project_ids;
  created_at = now;
  expires_at = now + pos_part req.expires_in_days * 86400000000000;
  last_used_at = none;
  revoked_at = none;
}

-- `CreateAPIToken`
unfoldable pub create_api_token :
    Crypto
    → Clock
    → Random
    → String
    → CreateApiTokenRequest
    → State
    → State × Outcome CreatedApiToken
unfolding texts
create_api_token crypto clock random subject raw s = elim (validate_token_request raw) [
  | refused e ↦ (s, refused e)
  | returned req ↦ elim random [
    | none ↦ (s, refused rand_failed)
    | some bytes ↦
        let made = generate_api_token crypto bytes.0 bytes.1 in
        let token = issued (clock 0) subject req made in
        (
          record_event (clock 1) (clock 2) "api_token.created" "api_token" token.id subject
              (("services", slice (texts token.services))
                ∷ ("expires_at", time token.expires_at)
                ∷ [])
              (record s { api_tokens = token ∷ s.api_tokens }),
          returned (record { token = token; secret = made.secret }),
        )
  ]
]

abbrev pub is_token_of : String → String → ApiToken → Bool
is_token_of subject token_id token = token.id == token_id && token.subject == subject

-- What `RevokeAPIToken` does to the key that it finds.
unfoldable pub revoke : Time → ApiToken → ApiToken
revoke now token = elim token.revoked_at [
  | none ↦ record token { revoked_at = some now }
  | some _ ↦ token
]

-- `RevokeAPIToken`. A key that is revoked already is no error, and leaves no event.
unfoldable pub revoke_api_token : Clock → String → String → State → State × Outcome (Unit {0})
revoke_api_token clock subject token_id s =
    let s' = record s {
      api_tokens = update_first (is_token_of subject token_id) (revoke (clock 0)) s.api_tokens;
    } in
    elim (find_first (is_token_of subject token_id) s.api_tokens) [
      | none ↦ (s, refused not_found)
      | some found ↦ elim found.revoked_at [
        | some _ ↦ (s', returned tt)
        | none ↦ (
          record_event (clock 1) (clock 2) "api_token.revoked" "api_token" token_id subject [] s',
          returned tt,
        )
      ]
    ]

abbrev pub is_revoked : ApiToken → Bool
is_revoked token = elim token.revoked_at [ none ↦ false | some _ ↦ true ]

-- The test of `ResolveAPIToken`.
abbrev pub accepts : Crypto → Time → String → ApiToken → Bool
accepts crypto now secret token =
    has_prefix secret (token.prefix ++ "_")
    && not (is_revoked token)
    && ltb now token.expires_at
    && token_matches crypto token secret

unfoldable pub use_at : Time → ApiToken → ApiToken
use_at now token = record token { last_used_at = some now }

-- `ResolveAPIToken`
unfoldable pub resolve_api_token : Crypto → Time → String → State → State × Outcome ApiToken
resolve_api_token crypto now secret s = elim (find_first (accepts crypto now secret) s.api_tokens) [
  | none ↦ (s, refused not_found)
  | some found ↦ (
    record s { api_tokens = update_first (accepts crypto now secret) (use_at now) s.api_tokens },
    returned (use_at now found),
  )
]
