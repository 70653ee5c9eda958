-- ===== src/Http/Handlers/People.antt =====
-- go/internal/httpapi/server.go: the handlers of user access, of access requests and of personal API
-- keys.
pub mod Admins
use mlops.Base.{
  ℕ, String, List, [], ◌∷◌, map, filter, Option, none, some, ◌==◌, ◌||◌, ◌&&◌, not, if◌then◌else◌,
}
use mlops.Api.Access.{
  UserAccess, UpsertUserAccessRequest, AccessRequest, CreateAccessRequest, ReviewAccessRequest,
  ApiToken, CreateApiTokenRequest, CreatedApiToken, ResourceProfile,
}
use mlops.Auth.{Principal}
use mlops.Store.{State, Outcome, refused, returned}
use mlops.Store.Access.{upsert_user_access, delete_user_access, resource_profiles, access_for}
use mlops.Store.Requests.{create_access_request, review_access_request}
use mlops.Store.Tokens.{Crypto, Random, create_api_token, revoke_api_token}
use mlops.Http.Access.{privileged, token_scopes_allowed}
use mlops.Http.Handlers.{
  Request, Env, Body, text_of, Reply, problem, json, principal, actor, answer, answer_deleted,
  decode, commit, write_mutation,
}

-- `accessFor` of access.go: null for the privileged and for those without a profile.
unfoldable entitlements : State → Principal → Option UserAccess
entitlements s value =
    if privileged value
    then none
    else elim (access_for value.subject s) [ refused _ ↦ none | returned access ↦ some access ]

-- A key without its hash.
abbrev pub without_hash : ApiToken → ApiToken
without_hash token = record token { secret_hash = "" }

-- `AccessRequestsFor`, `APITokensFor`
unfoldable access_requests_for : String → State → List AccessRequest
access_requests_for subject s = filter (λ v. v.subject == subject) s.access_requests

unfoldable api_tokens_for : String → State → List ApiToken
api_tokens_for subject s = filter (λ v. v.subject == subject) s.api_tokens

-- What `createAPIToken` answers with: the key without its hash, beside its secret.
unfoldable hide_hash : Outcome CreatedApiToken → Outcome CreatedApiToken
hide_hash (refused e) = refused e
hide_hash (returned created) = returned (record created { token = without_hash created.token })

-- `resourceProfiles`
unfoldable handle_resource_profiles : Reply (List ResourceProfile)
handle_resource_profiles = json 200 resource_profiles

-- `userAccess`, `accessRequests`
unfoldable handle_user_access : State → Reply (List UserAccess)
handle_user_access s = json 200 s.user_access

unfoldable handle_access_requests : State → Reply (List AccessRequest)
handle_access_requests s = json 200 s.access_requests

module _ (env : Env) (request : Request) where
  -- `upsertUserAccess`. `zero_time` is `time.Time{}`.
  unfoldable pub handle_upsert_user_access :
      ℕ → String → Body UpsertUserAccessRequest → State → State × Reply UserAccess
  handle_upsert_user_access zero_time subject body s = decode body s λ req.
      if subject == (principal request).subject && (not (req.role == "admin") || req.disabled)
      then (
        s,
        problem 400 "invalid_request"
            (text_of "administrators cannot demote or suspend themselves"),
      )
      else answer env 200 (upsert_user_access env.clock zero_time subject req (actor request) s)

  -- `deleteUserAccess`
  unfoldable pub handle_delete_user_access : String → State → State × Reply (Unit {0})
  handle_delete_user_access subject s =
      if subject == (principal request).subject
      then (
        s,
        problem 400 "invalid_request" (text_of "administrators cannot remove their own access"),
      )
      else answer_deleted env (delete_user_access env.clock subject (actor request) s)

  -- `myAccessRequests`
  unfoldable handle_my_access_requests : State → Reply (List AccessRequest)
  handle_my_access_requests s = json 200 (access_requests_for (principal request).subject s)

  -- `createAccessRequest`
  unfoldable handle_create_access_request :
      Body CreateAccessRequest → State → State × Reply AccessRequest
  handle_create_access_request body s = decode body s λ req.
      let value = principal request in
      answer env 201 (create_access_request env.clock value.subject value.email req s)

  -- `reviewAccessRequest`
  unfoldable handle_review_access_request :
      String → Body ReviewAccessRequest → State → State × Reply AccessRequest
  handle_review_access_request request_id body s =
      decode body s
        λ req. answer env 200 (review_access_request env.clock request_id req (actor request) s)

  -- `apiTokens`
  unfoldable handle_api_tokens : State → Reply (List ApiToken)
  handle_api_tokens s = json 200 (map without_hash (api_tokens_for (principal request).subject s))

  -- `createAPIToken`
  unfoldable handle_create_api_token :
      Crypto → Random → Body CreateApiTokenRequest → State → State × Reply CreatedApiToken
  handle_create_api_token crypto random body s = decode body s λ req.
      let value = principal request in
      if not (token_scopes_allowed s value req.services req.project_ids)
      then (s, problem 403 "invalid_scope" (text_of "token scope exceeds your effective access"))
      else let created =
          commit env (create_api_token crypto env.clock random value.subject req s) in
        (created.0, write_mutation (hide_hash created.1) 201)

  -- `revokeAPIToken`
  unfoldable handle_revoke_api_token : String → State → State × Reply (Unit {0})
  handle_revoke_api_token token_id s =
      answer_deleted env (revoke_api_token env.clock (principal request).subject token_id s)
