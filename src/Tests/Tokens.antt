-- ===== src/Tests/Tokens.antt =====
-- A personal API key that is created, used and revoked.
use Prim.Native.String.{◌++◌}
use mlops.Base.{◌≡◌, refl, ℕ, ◌+◌, arith, ◌==◌, String, List, [], ◌∷◌, false, some, none}
use mlops.Base.Int.{pos}
use mlops.Base.Decimal.{decimal}
use mlops.Base.Text.{byte_length, has_prefix, trim_space, contains}
use mlops.Api.Access.{CreateApiTokenRequest, CreatedApiToken}
use mlops.Store.{State, zero_state, Clock, returned, record_event}
use mlops.Store.Access.{unique, unique_from}
use mlops.Store.Tokens.{
  Crypto, first_four, validate_token_request, generate_api_token, token_matches, issued,
  create_api_token, revoke, revoke_api_token, use_at, resolve_api_token,
}
use mlops.Store.Tokens.Revoked.{
  Call, create, withdraw, resolve, perform, perform_all, revoke_api_token-Revoked,
}
use mlops.Store.Tokens.Resolved.{made, create_api_token-resolve_api_token}

abbrev digits : List ℕ → String
digits [] = ""
digits (b ∷ bs) = decimal b ++ digits bs

abbrev crypto : Crypto
crypto = record { hex = digits; base64_url = digits; sha256 = λ s. byte_length s ∷ [] }

abbrev clock : Clock
clock n = 1000 + n

abbrev bytes : List ℕ × List ℕ
bytes = (7 ∷ 8 ∷ [], 1 ∷ 2 ∷ 3 ∷ 4 ∷ 5 ∷ [])

abbrev wish : CreateApiTokenRequest
wish = record {
  name = " ci ci ";
  services = "models" ∷ "models" ∷ [];
  project_ids = "prj-1" ∷ [];
  expires_in_days = pos 30;
}

abbrev after : State
after = (create_api_token crypto clock (some bytes) "ann" wish zero_state).0

token_code : Unit {0}
unfolding has_prefix byte_length trim_space contains unique unique_from first_four
    validate_token_request generate_api_token token_matches issued create_api_token revoke
    revoke_api_token record_event use_at resolve_api_token perform perform_all decimal
token_code = tt

abbrev trimmed : CreateApiTokenRequest
trimmed = record wish { name = "ci ci"; services = "models" ∷ [] }

key_created :
    (create_api_token crypto clock (some bytes) "ann" wish zero_state).1
    ≡ returned (made crypto clock bytes "ann" trimmed)
unfolding token_code
key_created = refl

key_revoked : (revoke_api_token clock "ann" "tok-12345" after).1 ≡ returned tt
unfolding token_code
key_revoked = refl

create_api_token-resolve_api_token_example :
    (resolve_api_token crypto 2000 (made crypto clock bytes "ann" trimmed).secret after).1
    ≡ returned (use_at 2000 (made crypto clock bytes "ann" trimmed).token)
unfolding token_code
create_api_token-resolve_api_token_example =
    create_api_token-resolve_api_token crypto clock (some bytes) "ann" wish zero_state 2000
      key_created (omega arith)

abbrev later : List Call
later =
    create clock none "ann" wish
    ∷ withdraw clock "ann" "tok-12345"
    ∷ resolve 2000 "nxs_1234_78"
    ∷ create clock (some (9 ∷ [], 6 ∷ [])) "ann" wish
    ∷ []

-- The key that the calls after the revocation make.
abbrev second : CreatedApiToken
second = made crypto clock (9 ∷ [], 6 ∷ []) "ann" trimmed

second_resolves :
    (resolve_api_token crypto 2000 second.secret
      (perform_all crypto later (revoke_api_token clock "ann" "tok-12345" after).0)).1
    ≡ returned (use_at 2000 second.token)
unfolding token_code
second_resolves = refl

revoke_api_token-Revoked_example : ((use_at 2000 second.token).id == "tok-12345") ≡ false
unfolding token_code
revoke_api_token-Revoked_example =
    revoke_api_token-Revoked crypto clock "ann" "tok-12345" after later 2000 second.secret
      (omega arith) key_revoked (tt, (tt, (tt, (refl, tt)))) second_resolves
