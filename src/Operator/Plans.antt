-- ===== src/Operator/Plans.antt =====
-- What a plan of the operator promises.
use mlops.Base.{◌≡◌, refl, ◌+◌, String, false, ◌||◌, inl, inr, arith, Bool-cases}
use mathlib.Core.Path.{subst}
use mlops.Base.Int.{ℤ, pos, negsuc, pos_part, ltb_ℤ, sub_ℤ, ◌≤ℤ◌}
use mlops.Base.Text.{is_empty, trim_space}
use mlops.Operator.{
  AgentSpec, AgentPlan, planned, workload_of, traffic_of, first_replicas, reconcile_agent,
}

-- The weights are percentages that add up to 100, the canary has no more than the spec asks for, and
-- the workload starts with at least one replica and with no more than the spec allows.
abbrev pub IsSafe : AgentSpec → AgentPlan → Type 0
IsSafe spec plan =
    let stable = plan.traffic.stable_weight in
    let canary = plan.traffic.canary_weight in
    (pos 0 ≤ℤ stable)
    × (pos 0 ≤ℤ canary)
    × (pos_part stable + pos_part canary ≡ 100)
    × (canary ≤ℤ spec.canary_weight)
    × (pos 1 ≤ℤ plan.workload.replicas)
    × (plan.workload.replicas ≤ℤ spec.max_replicas)

weights :
    (to_lower : String → String) (spec : AgentSpec)
    → (ltb_ℤ spec.canary_weight (pos 0) || ltb_ℤ (pos 100) spec.canary_weight) ≡ false
    → let t = traffic_of to_lower spec in
      (pos 0 ≤ℤ t.stable_weight)
      × (pos 0 ≤ℤ t.canary_weight)
      × (pos_part t.stable_weight + pos_part t.canary_weight ≡ 100)
      × (t.canary_weight ≤ℤ spec.canary_weight)
unfolding traffic_of
weights to_lower spec bound = elim (Bool-cases (is_empty spec.stable_ref)) [
  | inl e ↦ rw e (omega arith, omega arith, refl, ground arith)
  | inr e ↦ rw e (by_weight spec.canary_weight bound)
]
  where
    by_weight :
        (w : ℤ)
        → (ltb_ℤ w (pos 0) || ltb_ℤ (pos 100) w) ≡ false
        → (pos 0 ≤ℤ sub_ℤ (pos 100) w)
          × (pos 0 ≤ℤ w)
          × (pos_part (sub_ℤ (pos 100) w) + pos_part w ≡ 100)
          × (w ≤ℤ w)
    by_weight (pos n) h = ground arith
    by_weight (negsuc n) h = ground arith

replicas :
    (spec : AgentSpec)
    → ltb_ℤ spec.max_replicas (first_replicas spec) ≡ false
    → (pos 1 ≤ℤ first_replicas spec) × (first_replicas spec ≤ℤ spec.max_replicas)
unfolding first_replicas
replicas spec h = elim (Bool-cases (ltb_ℤ spec.min_replicas (pos 1))) [
  | inl e ↦ rw e (omega arith, ground arith)
  | inr e ↦ rw e (ground arith, ground arith)
]

-- A plan that `ReconcileAgent` makes is safe: its two weights are percentages that add up to 100, the
-- canary gets no more than the spec asks for, and the workload starts with at least one replica and
-- with no more than the spec allows.
pub reconcile_agent-IsSafe :
    (to_lower : String → String) (spec : AgentSpec) {plan : AgentPlan}
    → reconcile_agent to_lower spec ≡ planned plan
    → IsSafe spec plan
unfolding reconcile_agent workload_of
reconcile_agent-IsSafe to_lower spec {plan} h =
    elim (Bool-cases (is_empty (trim_space spec.name) || is_empty (trim_space spec.namespace))) [
      | inl a ↦ let h' = rw (a, reconcile_agent) at h in cc
      | inr a ↦
          elim (Bool-cases
            (is_empty spec.image || is_empty spec.version || is_empty spec.graph_module)) [
              | inl b ↦ let h' = rw (a, b, reconcile_agent) at h in cc
              | inr b ↦
                  elim (Bool-cases
                    (ltb_ℤ spec.canary_weight (pos 0) || ltb_ℤ (pos 100) spec.canary_weight)) [
                      | inl c ↦ let h' = rw (a, b, c, reconcile_agent) at h in cc
                      | inr c ↦ elim (Bool-cases (ltb_ℤ spec.max_replicas (first_replicas spec))) [
                        | inl d ↦ let h' = rw (a, b, c, d, reconcile_agent) at h in cc
                        | inr d ↦
                            let made : AgentPlan = record {
                              workload = workload_of to_lower (first_replicas spec) spec;
                              traffic = traffic_of to_lower spec;
                            } in
                            let same : made ≡ plan =
                              (let h' = rw (a, b, c, d, reconcile_agent) at h in cc) in
                            let (w0, w1, w2, w3) = weights to_lower spec c in
                            let (r0, r1) = replicas spec d in
                            subst (IsSafe spec) same (w0, w1, w2, w3, r0, r1)
                      ]
                    ]
            ]
    ]
