-- ===== src/Store/Requests/Pending.antt =====
-- The pending requests for access of a subject, through calls of `CreateAccessRequest` and
-- `ReviewAccessRequest`.
use mlops.Base.{
  ◌≤◌, ◌≡◌, refl, String, Bool, false, List, [], ◌∷◌, ◌==◌, ◌&&◌, not, inl, inr, Bool-cases,
  Option-cases, eq_iff, count, any, arith,
}
use mlops.Base.First.{find_first, count-update_first-le}
use mlops.Api.Access.{AccessRequest, CreateAccessRequest, ReviewAccessRequest}
use mlops.Store.{Outcome-cases, State, Clock, record_event}
use mlops.Store.Requests.{
  is_pending_of, validate_access_request, requested, create_access_request, is_request, review,
  review_access_request,
}

-- No subject has two pending requests.
abbrev pub PendingOnce : State → Type 0
PendingOnce s = (k : String) → count (is_pending_of k) s.access_requests ≤ 1

count_of_none :
    (q : AccessRequest → Bool) (xs : List AccessRequest) → any q xs ≡ false → count q xs ≡ 0
count_of_none q [] h = refl
count_of_none q (x ∷ xs) h = ground (arith, count_of_none q xs)

create-PendingOnce :
    (clock : Clock) (subject email : String) (req : CreateAccessRequest) (s : State)
    → PendingOnce s
    → PendingOnce (create_access_request clock subject email req s).0
unfolding create_access_request record_event
create-PendingOnce clock subject email req s h k =
    elim (Outcome-cases (validate_access_request req)) [
      | inl (e, p) ↦ rw (p, create_access_request) (h k)
      | inr (valid, p) ↦ elim (Bool-cases (any (is_pending_of subject) s.access_requests)) [
        | inl d ↦ rw (p, create_access_request, d) (h k)
        | inr d ↦
            rw (p, create_access_request, d)
              (unfold requested in
                ground (
                  arith,
                  h k,
                  eq_iff subject k,
                  count_of_none (is_pending_of subject) s.access_requests d,
                ))
      ]
    ]

decided :
    (status : String)
    → (not (status == "approved") && not (status == "rejected")) ≡ false
    → (status == "pending") ≡ false
decided status h = elim (Bool-cases (status == "approved")) [
  | inl e ↦ rw ((eq_iff status "approved").0 e)
  | inr e ↦ rw ((eq_iff status "rejected").0 (ground arith))
]

review-PendingOnce :
    (clock : Clock) (request_id : String) (req : ReviewAccessRequest) (reviewer : String)
    (s : State)
    → PendingOnce s
    → PendingOnce (review_access_request clock request_id req reviewer s).0
unfolding review_access_request record_event
review-PendingOnce clock request_id req reviewer s h k =
    elim (Bool-cases (not (req.status == "approved") && not (req.status == "rejected"))) [
      | inl e ↦ rw (e, review_access_request) (h k)
      | inr e ↦ elim (Option-cases (find_first (is_request request_id) s.access_requests)) [
        | inl p ↦ rw (e, review_access_request, p) (h k)
        | inr (found, p) ↦ elim (Bool-cases (found.status == "pending")) [
          | inr d ↦ rw (e, review_access_request, p, d) (h k)
          | inl d ↦
              rw (e, review_access_request, p, d)
                (omega (
                  arith,
                  h k,
                  count-update_first-le (is_request request_id) (is_pending_of k)
                      (review (clock 0) req reviewer)
                      (unfold review in λ x a b. ground (arith, decided (req.status) e))
                      s.access_requests,
                ))
        ]
      ]
    ]

-- A call of a method that changes the requests.
pub data Call : Type 0 where
  create : Clock → String → String → CreateAccessRequest → Call
  decide : Clock → String → ReviewAccessRequest → String → Call

unfoldable pub perform : Call → State → State
perform (create clock subject email req) s = (create_access_request clock subject email req s).0
perform (decide clock request_id req reviewer) s =
    (review_access_request clock request_id req reviewer s).0

unfoldable pub perform_all : List Call → State → State
perform_all [] s = s
perform_all (c ∷ cs) s = perform_all cs (perform c s)

-- However requests are made and reviewed, no subject comes to have two pending requests.
pub perform_all-PendingOnce :
    (cs : List Call) (s : State) → PendingOnce s → PendingOnce (perform_all cs s)
unfolding perform_all perform
perform_all-PendingOnce [] s h = h
perform_all-PendingOnce (create clock subject email req ∷ cs) s h =
    perform_all-PendingOnce cs _ (create-PendingOnce clock subject email req s h)
perform_all-PendingOnce (decide clock request_id req reviewer ∷ cs) s h =
    perform_all-PendingOnce cs _ (review-PendingOnce clock request_id req reviewer s h)
