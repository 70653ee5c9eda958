-- ===== src/Store/Tokens/Revoked.antt =====
-- Personal API keys that have been revoked, under later calls.
use Prim.Native.String.{◌++◌}
use mathlib.Core.Path.{subst}
use mlops.Base.{
  ◌≤◌, ◌<◌, ◌≡◌, String, Bool, false, List, [], ◌∷◌, none, some, ◌==◌, ◌&&◌, not, inl, inr,
  Bool-cases, Option-cases, count, All, arith,
}
use mlops.Base.First.{
  find_first, update_first, find_first_passes, All-find_first, count-update_first-le,
}
use mlops.Api.Value.{Time}
use mlops.Api.Access.{ApiToken, CreateApiTokenRequest}
use mlops.Store.{Outcome-cases, State, Clock, returned, record_event}
use mlops.Store.Tokens.{
  Crypto, Random, validate_token_request, generate_api_token, issued, create_api_token, is_token_of,
  revoke, revoke_api_token, is_revoked, accepts, use_at, resolve_api_token,
}

abbrev pub has_token_id : String → ApiToken → Bool
has_token_id k token = token.id == k

-- A key with this id that is not revoked.
abbrev pub is_live : String → ApiToken → Bool
is_live k token = token.id == k && not (is_revoked token)

-- A call of a method that changes the keys.
pub data Call : Type 0 where
  create : Clock → Random → String → CreateApiTokenRequest → Call
  withdraw : Clock → String → String → Call
  resolve : Time → String → Call

count-zero-All :
    (q : ApiToken → Bool) (xs : List ApiToken) → count q xs ≡ 0 → All (λ x. q x ≡ false) xs
count-zero-All q [] h = tt
count-zero-All q (x ∷ xs) h = (ground arith, count-zero-All q xs (ground arith))

module _ (crypto : Crypto) where
  unfoldable pub perform : Call → State → State
  perform (create clock random subject req) s =
      (create_api_token crypto clock random subject req s).0
  perform (withdraw clock subject token_id) s = (revoke_api_token clock subject token_id s).0
  perform (resolve now secret) s = (resolve_api_token crypto now secret s).0

  unfoldable pub perform_all : List Call → State → State
  perform_all [] s = s
  perform_all (c ∷ cs) s = perform_all cs (perform c s)

  -- A call that draws no random bytes that give the id.
  abbrev pub SparesKey : String → Call → Type 0
  SparesKey k (create clock (some bytes) subject req) = ("tok-" ++ crypto.hex bytes.1 == k) ≡ false
  SparesKey k (create clock none subject req) = Unit
  SparesKey k (withdraw clock subject token_id) = Unit
  SparesKey k (resolve now secret) = Unit

  create-live :
      (clock : Clock) (random : Random) (subject : String) (req : CreateApiTokenRequest) (s : State)
      (k : String)
      → SparesKey k (create clock random subject req)
      → count (is_live k) (create_api_token crypto clock random subject req s).0.api_tokens
        ≤ count (is_live k) s.api_tokens
  unfolding create_api_token record_event
  create-live clock none subject req s k h = elim (Outcome-cases (validate_token_request req)) [
    | inl (e, p) ↦ rw (p, create_api_token) (omega arith)
    | inr (v, p) ↦ rw (p, create_api_token) (omega arith)
  ]
  create-live clock (some bytes) subject req s k h =
      elim (Outcome-cases (validate_token_request req)) [
        | inl (e, p) ↦ rw (p, create_api_token) (omega arith)
        | inr (v, p) ↦
            rw (p, create_api_token)
              (unfold issued in unfold generate_api_token in ground (arith, h))
      ]

  withdraw-live :
      (clock : Clock) (subject token_id : String) (s : State) (k : String)
      → count (is_live k) (revoke_api_token clock subject token_id s).0.api_tokens
        ≤ count (is_live k) s.api_tokens
  unfolding revoke_api_token record_event
  withdraw-live clock subject token_id s k =
      let fewer =
        count-update_first-le (is_token_of subject token_id) (is_live k) (revoke (clock 0))
          (unfold revoke in λ x a b. ground arith) s.api_tokens in
      elim (Option-cases (find_first (is_token_of subject token_id) s.api_tokens)) [
        | inl p ↦ rw (p, revoke_api_token) (omega arith)
        | inr (found, p) ↦ elim (Option-cases found.revoked_at) [
          | inl q ↦ rw (p, revoke_api_token, q) fewer
          | inr (t, q) ↦ rw (p, revoke_api_token, q) fewer
        ]
      ]

  resolve-live :
      (now : Time) (secret : String) (s : State) (k : String)
      → count (is_live k) (resolve_api_token crypto now secret s).0.api_tokens
        ≤ count (is_live k) s.api_tokens
  unfolding resolve_api_token
  resolve-live now secret s k =
      elim (Option-cases (find_first (accepts crypto now secret) s.api_tokens)) [
        | inl p ↦ rw (p, resolve_api_token) (omega arith)
        | inr (found, p) ↦
            rw (p, resolve_api_token)
              (count-update_first-le (accepts crypto now secret) (is_live k) (use_at now)
                (unfold use_at in λ x a b. b) s.api_tokens)
      ]

  perform_all-live :
      (k : String) (cs : List Call) (s : State)
      → All (SparesKey k) cs
      → count (is_live k) s.api_tokens ≡ 0
      → count (is_live k) (perform_all cs s).api_tokens ≡ 0
  unfolding perform_all perform
  perform_all-live k [] s spare h = h
  perform_all-live k (create clock random subject req ∷ cs) s spare h =
      perform_all-live k cs _ spare.1
        (omega (arith, h, create-live clock random subject req s k spare.0))
  perform_all-live k (withdraw clock subject token_id ∷ cs) s spare h =
      perform_all-live k cs _ spare.1 (omega (arith, h, withdraw-live clock subject token_id s k))
  perform_all-live k (resolve now secret ∷ cs) s spare h =
      perform_all-live k cs _ spare.1 (omega (arith, h, resolve-live now secret s k))

  not_resolved :
      (k : String) (now : Time) (secret : String) (s : State) {token : ApiToken}
      → count (is_live k) s.api_tokens ≡ 0
      → (resolve_api_token crypto now secret s).1 ≡ returned token
      → (token.id == k) ≡ false
  unfolding resolve_api_token
  not_resolved k now secret s {token} none_live h =
      elim (Option-cases (find_first (accepts crypto now secret) s.api_tokens)) [
        | inl p ↦ ground arith
        | inr (found, p) ↦
            let same : use_at now found ≡ token = ground arith in
            let dead =
              All-find_first (λ t. is_live k t ≡ false) (accepts crypto now secret) s.api_tokens
                (count-zero-All (is_live k) s.api_tokens none_live) p in
            let accepted = find_first_passes (accepts crypto now secret) s.api_tokens p in
            let other : (found.id == k) ≡ false = ground arith in
            subst (λ t. (t.id == k) ≡ false) same (unfold use_at in other)
      ]

  live-le : (k : String) (xs : List ApiToken) → count (is_live k) xs ≤ count (has_token_id k) xs
  live-le k [] = omega arith
  live-le k (x ∷ xs) = ground (arith, live-le k xs)

  found_counted :
      (subject k : String) (xs : List ApiToken) {found : ApiToken}
      → find_first (is_token_of subject k) xs ≡ some found
      → 0 < count (has_token_id k) xs
  found_counted subject k [] h = cc
  found_counted subject k (x ∷ xs) {found} h =
      ground (arith, found_counted subject k xs {found = found})

  -- After the update of the only key with an id, no key with that id is live.
  none_left :
      (subject k : String) (now : Time) (xs : List ApiToken) {found : ApiToken}
      → count (has_token_id k) xs ≤ 1
      → find_first (is_token_of subject k) xs ≡ some found
      → count (is_live k) (update_first (is_token_of subject k) (revoke now) xs) ≡ 0
  none_left subject k now [] once h = cc
  none_left subject k now (x ∷ xs) {found} once h = elim (Bool-cases (is_token_of subject k x)) [
    | inl e ↦ rw e (unfold revoke in ground (arith, live-le k xs))
    | inr e ↦ rw e (
        ground (
          arith,
          found_counted subject k xs {found = found},
          none_left subject k now xs {found = found},
        ))
  ]

  withdraw-none_live :
      (clock : Clock) (subject k : String) (s : State)
      → count (has_token_id k) s.api_tokens ≤ 1
      → (revoke_api_token clock subject k s).1 ≡ returned tt
      → count (is_live k) (revoke_api_token clock subject k s).0.api_tokens ≡ 0
  unfolding revoke_api_token record_event
  withdraw-none_live clock subject k s once h =
      elim (Option-cases (find_first (is_token_of subject k) s.api_tokens)) [
        | inl p ↦ ground arith
        | inr (found, p) ↦
            let gone = none_left subject k (clock 0) s.api_tokens once p in
            elim (Option-cases found.revoked_at) [
              | inl q ↦ rw (p, revoke_api_token, q) gone
              | inr (t, q) ↦ rw (p, revoke_api_token, q) gone
            ]
      ]

  -- Once `RevokeAPIToken` has returned with no error for a key whose id no other key has, no
  -- sequence of calls makes the key resolve again, at any time and with any secret, as long as no
  -- new key draws the same id.
  pub revoke_api_token-Revoked :
      (clock : Clock) (subject k : String) (s : State) (cs : List Call) (now : Time)
      (secret : String) {token : ApiToken}
      → count (has_token_id k) s.api_tokens ≤ 1
      → (revoke_api_token clock subject k s).1 ≡ returned tt
      → All (SparesKey k) cs
      → (resolve_api_token crypto now secret
          (perform_all cs (revoke_api_token clock subject k s).0)).1
        ≡ returned token
      → (token.id == k) ≡ false
  revoke_api_token-Revoked clock subject k s cs now secret once done spare h =
      not_resolved k now secret _
        (perform_all-live k cs (revoke_api_token clock subject k s).0 spare
          (withdraw-none_live clock subject k s once done))
        h
