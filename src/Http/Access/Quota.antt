-- ===== src/Http/Access/Quota.antt =====
-- What a quota check that passes says.
use mlops.Base.{ℕ, suc, ◌≡◌, true, false, none, some, inl, inr, Option-cases, arith}
use mlops.Base.First.{find_first}
use mlops.Base.Int.{ℤ, pos, negsuc, ◌≤ℤ◌, ltb_ℤ}
use mlops.Api.Access.{UserAccess}
use mlops.Auth.{Principal}
use mlops.Store.{State}
use mlops.Store.Access.{for_subject}
use mlops.Http.Access.{exempt, enforce}

-- The principal has an access profile, and what it holds leaves room for one more.
abbrev pub HasRoom : State → Principal → (UserAccess → ℤ) → ℕ → Type 0
HasRoom s value limit held =
    (access : UserAccess) × (find_first (for_subject value.subject) s.user_access ≡ some access)
    × (pos (suc held) ≤ℤ limit access)

room : (held : ℕ) (limit : ℤ) → ltb_ℤ (pos held) limit ≡ true → pos (suc held) ≤ℤ limit
room held (pos n) h = ground arith
room held (negsuc n) h = ground arith

pub enforce-HasRoom :
    (s : State) (value : Principal) (limit : UserAccess → ℤ) (held : ℕ)
    → exempt value ≡ false
    → enforce s value limit held ≡ none
    → HasRoom s value limit held
unfolding enforce
enforce-HasRoom s value limit held bound h =
    elim (Option-cases (find_first (for_subject value.subject) s.user_access)) [
      | inl e ↦ ground arith
      | inr (access, e) ↦ (access, e, room held (limit access) (ground arith))
    ]
