-- ===== src/Store/Agents/Turns.antt =====
-- The turns of an agent's sessions against its traces.
use mlops.Base.{
  ℕ, suc, ◌≡◌, refl, sym, ◌∙◌, String, Bool, true, false, List, [], ◌∷◌, ◌==◌, ◌||◌, ◌&&◌, inl, inr,
  Bool-cases, eq_iff, count, any, map, All, arith, if◌then◌else◌, ap,
}
use mlops.Base.Int.{wrap64, wrap64-suc, wrap64-one}
use mlops.Base.Text.{is_empty}
use mlops.Api.Value.{Time, Float64}
use mlops.Api.Agent.{AgentSession, AgentTrace, RecordTraceRequest}
use mlops.Store.{State, Clock}
use mlops.Store.Agents.{
  is_session, new_trace, continue_session, start_session, sessions_after, record_trace,
}

abbrev pub is_trace : String → String → AgentTrace → Bool
is_trace agent_id session_id trace = trace.session_id == session_id && trace.agent_id == agent_id

-- Every session of an agent stands at as many turns as the agent has traces of it, and where there
-- is no session there is no trace.
abbrev pub CountsTurns : List AgentSession → List AgentTrace → Type 0
CountsTurns sessions traces =
    (a k : String)
    → All (λ x. is_session a k x ≡ true → x.turns ≡ wrap64 (count (is_trace a k) traces)) sessions
      × (any (is_session a k) sessions ≡ false → count (is_trace a k) traces ≡ 0)

module _ (add : Float64 → Float64 → Float64) (now : Time) (req : RecordTraceRequest) where
  abbrev step : AgentSession → AgentSession
  step x = if is_session req.agent_id req.session_id x then continue_session add now req x else x

  step-is_session : (a k : String) (x : AgentSession) → is_session a k (step x) ≡ is_session a k x
  unfolding continue_session
  step-is_session a k x = ground arith

  any-step :
      (a k : String) (xs : List AgentSession)
      → any (is_session a k) (map step xs) ≡ any (is_session a k) xs
  any-step a k [] = refl
  any-step a k (x ∷ xs) =
      rw (step-is_session a k x) (ap (λ b. is_session a k x || b) (any-step a k xs))

  abbrev same_key : String → String → Bool
  same_key a k = req.session_id == k && req.agent_id == a

  step_turns :
      (a k : String) (n : ℕ) (x : AgentSession)
      → (is_session a k x ≡ true → x.turns ≡ wrap64 n)
      → is_session a k (step x) ≡ true
      → (step x).turns ≡ wrap64 (if same_key a k then suc n else n)
  unfolding continue_session
  step_turns a k n x h m = ground (
    arith,
    wrap64-suc n,
    eq_iff x.id k,
    eq_iff x.id req.session_id,
    eq_iff req.session_id k,
    eq_iff x.agent_id a,
    eq_iff x.agent_id req.agent_id,
    eq_iff req.agent_id a,
  )

  key_eq : (a k : String) → same_key a k ≡ true → (req.agent_id ≡ a) × (req.session_id ≡ k)
  key_eq a k h = ground (arith, eq_iff req.session_id k, eq_iff req.agent_id a)

  All-step :
      (a k : String) (n : ℕ) (xs : List AgentSession)
      → All (λ x. is_session a k x ≡ true → x.turns ≡ wrap64 n) xs
      → All
          (λ x. is_session a k x ≡ true → x.turns ≡ wrap64 (if same_key a k then suc n else n))
          (map step xs)
  All-step a k n [] h = tt
  All-step a k n (x ∷ xs) (h, hs) = (step_turns a k n x h, All-step a k n xs hs)

  All-other :
      (a k : String) (n : ℕ) (xs : List AgentSession)
      → any (is_session req.agent_id req.session_id) xs ≡ false
      → All (λ x. is_session a k x ≡ true → x.turns ≡ wrap64 n) xs
      → All (λ x. is_session a k x ≡ true → x.turns ≡ wrap64 (if same_key a k then suc n else n)) xs
  All-other a k n [] absent h = tt
  All-other a k n (x ∷ xs) absent (h, hs) = (
    λ m. ground (arith, h m, eq_iff req.session_id k, eq_iff req.agent_id a),
    All-other a k n xs (ground arith) hs,
  )

  count-new_trace :
      (clock : Clock) (a k : String) (traces : List AgentTrace)
      → count (is_trace a k) (new_trace clock req ∷ traces)
        ≡ (if same_key a k then suc (count (is_trace a k) traces) else count (is_trace a k) traces)
  unfolding new_trace
  count-new_trace clock a k traces = ground arith

  after-CountsTurns :
      (clock : Clock) (sessions : List AgentSession) (traces : List AgentTrace)
      → CountsTurns sessions traces
      → CountsTurns (sessions_after add now req sessions) (new_trace clock req ∷ traces)
  unfolding sessions_after
  after-CountsTurns clock sessions traces h a k =
      rw (count-new_trace clock a k traces)
        (elim (Bool-cases (any (is_session req.agent_id req.session_id) sessions)) [
          | inl e ↦ rw e (
            All-step a k (count (is_trace a k) traces) sessions (h a k).0,
            λ m.
                let before : any (is_session a k) sessions ≡ false =
                  sym (any-step a k sessions) ∙ m in
                elim (Bool-cases (same_key a k)) [
                  | inl q ↦ let (same_a, same_k) = key_eq a k q in cc (rw (same_a, same_k) at e)
                  | inr q ↦ rw q ((h a k).1 before)
                ],
          )
          | inr e ↦ rw e (
            (
              λ m.
                  unfold start_session in
                  let (same_a, same_k) = key_eq a k m in
                  let none_yet : count (is_trace a k) traces ≡ 0 =
                    (h a k).1 (rw (same_a, same_k) at e) in
                  rw (m, none_yet) (sym wrap64-one),
              All-other a k (count (is_trace a k) traces) sessions e (h a k).0,
            ),
            λ m. unfold start_session in ground (arith, (h a k).1),
          )
        ])

-- A call of `RecordTrace`.
pub record Reported : Type 0 where
  pub clock : Clock
  pub req : RecordTraceRequest

module _ (add : Float64 → Float64 → Float64) where
  unfoldable pub record_all : List Reported → State → State
  record_all [] s = s
  record_all (r ∷ rs) s = record_all rs (record_trace add r.clock r.req s).0

  record-CountsTurns :
      (r : Reported) (s : State)
      → CountsTurns s.sessions s.traces
      → CountsTurns
          (record_trace add r.clock r.req s).0.sessions
          (record_trace add r.clock r.req s).0.traces
  unfolding record_trace
  record-CountsTurns r s h =
      elim (Bool-cases (is_empty r.req.agent_id || is_empty r.req.session_id)) [
        | inl e ↦ rw (e, record_trace) h
        | inr e ↦
            rw (e, record_trace)
              (after-CountsTurns add (r.clock 0) r.req r.clock s.sessions s.traces h)
      ]

  -- However traces are recorded, the turns of a session are the number of the traces of its agent
  -- and its id, as a 64-bit int counts them, if they are so at first.
  pub record_all-CountsTurns :
      (rs : List Reported) (s : State)
      → CountsTurns s.sessions s.traces
      → CountsTurns (record_all rs s).sessions (record_all rs s).traces
  unfolding record_all
  record_all-CountsTurns [] s h = h
  record_all-CountsTurns (r ∷ rs) s h =
      record_all-CountsTurns rs (record_trace add r.clock r.req s).0 (record-CountsTurns r s h)
