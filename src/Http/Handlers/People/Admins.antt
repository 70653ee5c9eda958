-- ===== src/Http/Handlers/People/Admins.antt =====
-- An administrator who changes the access of users.
use mlops.Base.{
  ℕ, ◌≡◌, sym, ◌∙◌, String, true, false, List, [], ◌∷◌, All, some, none, ◌==◌, ◌||◌, ◌&&◌, not, inl,
  inr, arith, eq_iff, eq_refl, Bool-cases, Option-cases, if◌then◌else◌,
}
use mathlib.Core.Path.{subst}
use mlops.Base.First.{
  find_first, find_first-update_first, find_first-update_first_apart, find_first-remove_first_apart,
}
use mlops.Base.Text.{trim_space, is_empty}
use mlops.Api.Access.{UserAccess, UpsertUserAccessRequest}
use mlops.Store.{State, Clock, Outcome-cases, returned, record_event}
use mlops.Store.Access.{
  for_subject, access_for, validate_access, put_access, upsert_user_access, delete_user_access,
}
use mlops.Store.Access.Subjects.{validate_access-subject, upsert_user_access_untrimmed}
use mlops.Http.Handlers.{
  Request, Env, Body, unreadable, read, principal, actor, answer, answer_deleted, decode,
}
use mlops.Http.Handlers.Isolation.Dispatch.{commit-state}
use mlops.Http.Handlers.People.{handle_upsert_user_access, handle_delete_user_access}

-- The profile that `AccessFor` finds for the subject is that of an administrator who is not
-- suspended.
abbrev pub IsAdmin : String → State → Type 0
IsAdmin k s =
    (a : UserAccess) × (find_first (for_subject k) s.user_access ≡ some a)
    × (a.role ≡ "admin")
    × (a.disabled ≡ false)

validate_access-fields :
    (zero_time : ℕ) (subject : String) (req : UpsertUserAccessRequest) {valid : UserAccess}
    → validate_access zero_time subject req ≡ returned valid
    → (valid.role ≡ (if is_empty req.role then "user" else req.role))
      × (valid.disabled ≡ req.disabled)
unfolding validate_access
validate_access-fields zero_time subject req h = (ground arith, ground arith)

validate_access-role :
    (zero_time : ℕ) (subject : String) (req : UpsertUserAccessRequest) {valid : UserAccess}
    → validate_access zero_time subject req ≡ returned valid
    → (req.role == "admin") ≡ true
    → valid.role ≡ "admin"
validate_access-role zero_time subject req h admin =
    let role : req.role ≡ "admin" = (eq_iff req.role "admin").0 admin in
    rw role at (validate_access-fields zero_time subject req h).0

passed_over :
    (k subject : String)
    → (subject == k) ≡ false
    → (x : UserAccess) → for_subject subject x ≡ true
    → for_subject k x ≡ false
passed_over k subject other x h = rw ((eq_iff x.subject subject).0 h) other

module _ (clock : Clock) (who k : String) (s : State) (admin : IsAdmin k s)
    (valid : UserAccess) where
  put_own :
      valid.subject ≡ k
      → valid.role ≡ "admin"
      → valid.disabled ≡ false
      → IsAdmin k (put_access clock k valid who s).0
  unfolding put_access record_event
  put_own named role on =
      let (old, e, _, _) = admin in
      let access : UserAccess = record valid {
        updated_at = clock 0;
        created_at = old.created_at;
      } in
      (
        access,
        rw (e, put_access)
            (find_first-update_first (for_subject k) (λ _. access) s.user_access e
              (rw named (eq_refl k))),
        role,
        on,
      )

  put_other :
      (subject : String)
      → (subject == k) ≡ false
      → valid.subject ≡ subject
      → IsAdmin k (put_access clock subject valid who s).0
  unfolding put_access record_event
  put_other subject other named =
      let (a, e, role, on) = admin in
      (
        a,
        elim (Option-cases (find_first (for_subject subject) s.user_access)) [
          | inl o ↦ rw (o, put_access) (rw (named, other) e)
          | inr (old, o) ↦
              rw (o, put_access)
                (find_first-update_first_apart (for_subject subject) (for_subject k) _
                    (passed_over k subject other) (λ _. rw named other) s.user_access
                  ∙ e)
        ],
        role,
        on,
      )

module _ (clock : Clock) (who k : String) (s : State) (admin : IsAdmin k s) where
  delete_other :
      (subject : String)
      → (subject == k) ≡ false
      → IsAdmin k (delete_user_access clock subject who s).0
  unfolding delete_user_access record_event
  delete_other subject other =
      let (a, e, role, on) = admin in
      (
        a,
        elim (Option-cases (find_first (for_subject subject) s.user_access)) [
          | inl o ↦ rw (o, delete_user_access) e
          | inr (old, o) ↦
              rw (o, delete_user_access)
                (find_first-remove_first_apart (for_subject subject) (for_subject k)
                    (passed_over k subject other) s.user_access
                  ∙ e)
        ],
        role,
        on,
      )

module _ (env : Env) (request : Request) (s : State)
    (admin : IsAdmin (principal request).subject s) where
  abbrev me : String
  me = (principal request).subject

  upsert-KeepsAdmin :
      (zero_time : ℕ) (subject : String) (req : UpsertUserAccessRequest)
      → trim_space subject ≡ subject
      → (subject == me && (not (req.role == "admin") || req.disabled)) ≡ false
      → IsAdmin me (upsert_user_access env.clock zero_time subject req (actor request) s).0
  unfolding upsert_user_access
  upsert-KeepsAdmin zero_time subject req trimmed guard =
      elim (Outcome-cases (validate_access zero_time subject req)) [
        | inl (_, bad) ↦ rw (bad, upsert_user_access) admin
        | inr (valid, good) ↦
            let named = validate_access-subject zero_time subject req good ∙ trimmed in
            rw (good, upsert_user_access)
              (elim (Bool-cases (subject == me)) [
                | inr other ↦
                    put_other env.clock (actor request) me s admin valid subject other named
                | inl own ↦
                    let same : subject ≡ me = (eq_iff subject me).0 own in
                    let keeps : (req.role == "admin") ≡ true = ground arith in
                    let on : req.disabled ≡ false = ground arith in
                    rw same (
                      put_own env.clock (actor request) me s admin valid (named ∙ same)
                        (validate_access-role zero_time subject req good keeps)
                        ((validate_access-fields zero_time subject req good).1 ∙ on))
              ])
      ]

  handle_upsert-KeepsAdmin :
      (zero_time : ℕ) (subject : String) (body : Body UpsertUserAccessRequest)
      → trim_space subject ≡ subject
      → IsAdmin me (handle_upsert_user_access env request zero_time subject body s).0
  unfolding handle_upsert_user_access decode answer
  handle_upsert-KeepsAdmin zero_time subject (unreadable _) trimmed = admin
  handle_upsert-KeepsAdmin zero_time subject (read req) trimmed =
      elim (Bool-cases (subject == me && (not (req.role == "admin") || req.disabled))) [
        | inl bad ↦ rw bad admin
        | inr guard ↦
            let r = upsert_user_access env.clock zero_time subject req (actor request) s in
            rw guard (
              subst (IsAdmin me) (sym (commit-state env r.0 r.1))
                (upsert-KeepsAdmin zero_time subject req trimmed guard))
      ]

  handle_delete-KeepsAdmin :
      (subject : String) → IsAdmin me (handle_delete_user_access env request subject s).0
  unfolding handle_delete_user_access answer_deleted
  handle_delete-KeepsAdmin subject = elim (Bool-cases (subject == me)) [
    | inl own ↦ rw own admin
    | inr other ↦
        let r = delete_user_access env.clock subject (actor request) s in
        rw other (
          subst (IsAdmin me) (sym (commit-state env r.0 r.1))
            (delete_other env.clock (actor request) me s admin subject other))
  ]

-- A request to the handlers of user access that change it, with the time of `time.Time{}`, the
-- subject of the path, and the body.
pub data Call : Type 0 where
  upsert : ℕ → String → Body UpsertUserAccessRequest → Call
  delete : String → Call

abbrev pub subject_of : Call → String
subject_of (upsert _ subject _) = subject
subject_of (delete subject) = subject

module _ (request : Request) where
  unfoldable pub serve : Env × Call → State → State
  serve (env, upsert zero_time subject body) s =
      (handle_upsert_user_access env request zero_time subject body s).0
  serve (env, delete subject) s = (handle_delete_user_access env request subject s).0

  unfoldable pub serve_all : List (Env × Call) → State → State
  serve_all [] s = s
  serve_all (c ∷ cs) s = serve_all cs (serve c s)

  -- Where the profile of the caller is that of an administrator who is not suspended, it still is so
  -- after any sequence of his own requests that change the access of users, of himself or of others,
  -- if the subjects in their paths have no white space around them.
  pub serve_all-KeepsAdmin :
      (calls : List (Env × Call)) (s : State)
      → All (λ c. trim_space (subject_of c.1) ≡ subject_of c.1) calls
      → IsAdmin (principal request).subject s
      → IsAdmin (principal request).subject (serve_all calls s)
  unfolding serve_all serve
  serve_all-KeepsAdmin [] s trimmed admin = admin
  serve_all-KeepsAdmin ((env, upsert zero_time subject body) ∷ cs) s trimmed admin =
      serve_all-KeepsAdmin cs _ trimmed.1
        (handle_upsert-KeepsAdmin env request s admin zero_time subject body trimmed.0)
  serve_all-KeepsAdmin ((env, delete subject) ∷ cs) s trimmed admin =
      serve_all-KeepsAdmin cs _ trimmed.1 (handle_delete-KeepsAdmin env request s admin subject)

-- A path that holds the subject of the caller with white space around it passes the test against his
-- demotion. Where no profile stands under that text, a request that the validation lets through
-- takes effect on the caller: `AccessFor` then finds the profile of the request under his subject,
-- whatever its role, and also if it is suspended.
pub handle_upsert_user_access_untrimmed :
    (env : Env) (request : Request) (zero_time : ℕ) (subject : String)
    (req : UpsertUserAccessRequest) (s : State) (valid : UserAccess)
    → trim_space subject ≡ (principal request).subject
    → (subject == (principal request).subject) ≡ false
    → validate_access zero_time subject req ≡ returned valid
    → find_first (for_subject subject) s.user_access ≡ none
    → access_for
        (principal request).subject
        (handle_upsert_user_access env request zero_time subject (read req) s).0
      ≡ returned (record valid { updated_at = env.clock 0; created_at = env.clock 0 })
unfolding handle_upsert_user_access decode answer
handle_upsert_user_access_untrimmed env request zero_time subject req s valid mine apart good
      absent =
    let r = upsert_user_access env.clock zero_time subject req (actor request) s in
    let found =
      upsert_user_access_untrimmed env.clock zero_time subject req (actor request) s valid good
        absent in
    rw apart (
      subst
        (λ s'.
          access_for (principal request).subject s'
          ≡ returned (record valid { updated_at = env.clock 0; created_at = env.clock 0 }))
        (sym (commit-state env r.0 r.1)) (rw mine at found.1))
