-- ===== src/Store/Access/Subjects.antt =====
-- The subjects of the access profiles.
use mlops.Base.{ℕ, suc, ◌≤◌, ◌≡◌, String, none, inl, inr, Option-cases, eq_iff, count, arith, ◌∙◌}
use mlops.Base.First.{find_first, count-eq_zero, count-update_first-le, count-remove_first-le}
use mlops.Base.Text.{trim_space}
use mlops.Api.Access.{UserAccess, UpsertUserAccessRequest}
use mlops.Store.{Outcome-cases, State, Clock, returned, record_event}
use mlops.Store.Access.{
  for_subject, validate_access, put_access, upsert_user_access, delete_user_access, access_for,
}

-- No subject has two profiles.
abbrev pub SubjectsDiffer : State → Type 0
SubjectsDiffer s = (k : String) → count (for_subject k) s.user_access ≤ 1

pub validate_access-subject :
    (zero_time : ℕ) (subject : String) (req : UpsertUserAccessRequest) {valid : UserAccess}
    → validate_access zero_time subject req ≡ returned valid
    → valid.subject ≡ trim_space subject
unfolding validate_access
validate_access-subject zero_time subject req h = ground arith

put_access-SubjectsDiffer :
    (clock : Clock) (subject : String) (valid : UserAccess) (actor : String) (s : State)
    → valid.subject ≡ subject
    → SubjectsDiffer s
    → SubjectsDiffer (put_access clock subject valid actor s).0
unfolding put_access record_event
put_access-SubjectsDiffer clock subject valid actor s same d k =
    elim (Option-cases (find_first (for_subject subject) s.user_access)) [
      | inr (old, e) ↦
          let access : UserAccess = record valid {
            updated_at = clock 0;
            created_at = old.created_at;
          } in
          rw (e, put_access)
            (omega (
              arith,
              d k,
              count-update_first-le (for_subject subject) (for_subject k) (λ _. access)
                  (λ x p q.
                    ground
                      (arith, eq_iff x.subject subject, eq_iff valid.subject k, eq_iff x.subject k))
                  s.user_access,
            ))
      | inl e ↦
          rw (e, put_access)
            (ground (
              arith,
              d k,
              eq_iff valid.subject k,
              count-eq_zero (for_subject subject) s.user_access e,
            ))
    ]

upsert-SubjectsDiffer :
    (clock : Clock) (zero_time : ℕ) (subject : String) (req : UpsertUserAccessRequest)
    (actor : String) (s : State)
    → trim_space subject ≡ subject
    → SubjectsDiffer s
    → SubjectsDiffer (upsert_user_access clock zero_time subject req actor s).0
unfolding upsert_user_access
upsert-SubjectsDiffer clock zero_time subject req actor s trimmed d =
    elim (Outcome-cases (validate_access zero_time subject req)) [
      | inl (e, h) ↦ rw (h, upsert_user_access) d
      | inr (valid, h) ↦
          rw (h, upsert_user_access)
            (put_access-SubjectsDiffer clock subject valid actor s
              (validate_access-subject zero_time subject req h ∙ trimmed) d)
    ]

delete-SubjectsDiffer :
    (clock : Clock) (subject actor : String) (s : State)
    → SubjectsDiffer s
    → SubjectsDiffer (delete_user_access clock subject actor s).0
unfolding delete_user_access record_event
delete-SubjectsDiffer clock subject actor s d k =
    elim (Option-cases (find_first (for_subject subject) s.user_access)) [
      | inl e ↦ rw (e, delete_user_access) (d k)
      | inr (old, e) ↦
          rw (e, delete_user_access)
            (omega (
              arith,
              d k,
              count-remove_first-le (for_subject subject) (for_subject k) s.user_access,
            ))
    ]

-- With a subject that is already trimmed, `UpsertUserAccess` gives no subject a second profile;
-- neither does `DeleteUserAccess`.
pub upsert_user_access-SubjectsDiffer :
    (clock : Clock) (zero_time : ℕ) (subject : String) (req : UpsertUserAccessRequest)
    (actor : String) (s : State)
    → trim_space subject ≡ subject
    → SubjectsDiffer s
    → SubjectsDiffer (upsert_user_access clock zero_time subject req actor s).0
      × SubjectsDiffer (delete_user_access clock subject actor s).0
upsert_user_access-SubjectsDiffer clock zero_time subject req actor s trimmed d = (
  upsert-SubjectsDiffer clock zero_time subject req actor s trimmed d,
  delete-SubjectsDiffer clock subject actor s d,
)

-- Where no profile stands under the subject as it is given, a request that the validation lets
-- through adds a profile under the trimmed subject, however many stand there already, and
-- `AccessFor` finds the added one.
pub upsert_user_access_untrimmed :
    (clock : Clock) (zero_time : ℕ) (subject : String) (req : UpsertUserAccessRequest)
    (actor : String) (s : State) (valid : UserAccess)
    → validate_access zero_time subject req ≡ returned valid
    → find_first (for_subject subject) s.user_access ≡ none
    → let s' = (upsert_user_access clock zero_time subject req actor s).0 in
      let k = trim_space subject in
      (count (for_subject k) s'.user_access ≡ suc (count (for_subject k) s.user_access))
      × (access_for k s' ≡ returned (record valid { updated_at = clock 0; created_at = clock 0 }))
unfolding upsert_user_access put_access access_for record_event
upsert_user_access_untrimmed clock zero_time subject req actor s valid h absent =
    let who = validate_access-subject zero_time subject req h in
    ground (arith, eq_iff valid.subject (trim_space subject))
