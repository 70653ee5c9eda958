-- ===== src/Operator/Workspace/Grants.antt =====
-- A workspace stays within its grant.
use mlops.Base.{
  ℕ, ◌≡◌, refl, ◌+◌, ◌*◌, ◌/◌, ◌≤◌, ◌∙◌, String, Bool, true, false, List, [], ◌∷◌, some, ◌||◌, ◌&&◌,
  ◌==◌, all, any, inl, inr, arith, eq_iff, Bool-cases, ◌⊎◌, if◌then◌else◌,
}
use mathlib.Core.Path.{subst}
use mathlib.Core.Bool.{cond}
use Prim.Native.String.{◌++◌}
use mlops.Base.Int.{pos, pos_part, ltb_ℤ}
use mlops.Base.Text.{is_empty, contains}
use mlops.Operator.Workspace.{
  Images, Workspace, WorkspaceSpec, WorkspacePlan, WorkspaceContainer, WorkspaceCompute, Resources,
  put_quantity, gpu_name, with_gpus, reconciled, gibibyte, services_of, container_of, containers,
  storage_of, replicas_of, workspace_plan, reconcile_workspace,
}

abbrev pub total {ℓ} : {A : Type ℓ} → (A → ℕ) → List A → ℕ
total f [] = 0
total f (x ∷ xs) = f x + total f xs

-- What a container has of a resource, and whether it is given a quantity of it at all.
unfoldable pub quantity : String → Resources → ℕ
quantity name [] = 0
quantity name ((key, held) ∷ m) = if key == name then held else quantity name m

abbrev pub is_limited : String → WorkspaceContainer → Bool
is_limited name c = any (λ (entry : String × ℕ). entry.0 == name) c.resources

-- Each container has a limit on CPUs and on memory, the containers together have no more of them and
-- of GPUs than the grant, the claim is as large as the grant and as it was, and a suspended workspace
-- has no pod.
abbrev pub IsWithin : Workspace → ℕ → WorkspacePlan → Type 0
IsWithin workspace held plan =
    let compute = workspace.spec.compute in
    (all (λ c. is_limited "cpu" c && is_limited "memory" c) plan.containers ≡ true)
    × (total (λ c. quantity "cpu" c.resources) plan.containers ≤ pos_part compute.vcpus * 1000)
    × (total (λ c. quantity "memory" c.resources) plan.containers
        ≤ pos_part compute.memory_gb * gibibyte * 1000)
    × (total (λ c. quantity (gpu_name compute) c.resources) plan.containers
        ≤ pos_part compute.gpus * 1000)
    × (pos_part workspace.spec.storage_gb * gibibyte ≤ plan.storage)
    × (held ≤ plan.storage)
    × (workspace.spec.disabled ≡ true → plan.replicas ≡ 0)
    × (plan.replicas ≤ 1)

storage-le :
    (held requested : ℕ)
    → (requested ≤ storage_of (some held) requested) × (held ≤ storage_of (some held) requested)
unfolding storage_of
storage-le held requested = (ground arith, ground arith)

quantity-put_quantity :
    (name key : String) (value : ℕ) (m : Resources)
    → quantity name (put_quantity key value m) ≡ (if key == name then value else quantity name m)
unfolding quantity put_quantity
quantity-put_quantity name key value [] = refl
quantity-put_quantity name key value ((k, held) ∷ m) =
    ground
      (arith, quantity-put_quantity name key value m, eq_iff k key, eq_iff k name, eq_iff key name)

is_limited-put_quantity :
    (name key : String) (value : ℕ) (m : Resources)
    → any (λ (entry : String × ℕ). entry.0 == name) m ≡ true
    → any (λ (entry : String × ℕ). entry.0 == name) (put_quantity key value m) ≡ true
unfolding put_quantity
is_limited-put_quantity name key value [] h = cc
is_limited-put_quantity name key value ((k, held) ∷ m) h = elim (Bool-cases (k == key)) [
  | inl e ↦ rw e h
  | inr e ↦ elim (Bool-cases (k == name)) [
    | inl e' ↦ rw (e, e') refl
    | inr e' ↦ rw (e, e') (is_limited-put_quantity name key value m (rw e' at h))
  ]
]

services_of-cases :
    (spec : WorkspaceSpec)
    → (services_of spec ≡ [])
      ⊎ ((services_of spec ≡ "workbench" ∷ [])
          ⊎ ((services_of spec ≡ "ide" ∷ []) ⊎ (services_of spec ≡ "workbench" ∷ "ide" ∷ [])))
unfolding services_of
services_of-cases spec =
    by_cases (contains spec.services "workbench") (contains spec.services "ide")
  where
    by_cases :
        (a b : Bool)
        → let rest : List String = cond b ("ide" ∷ []) [] in
          let found : List String = cond a ("workbench" ∷ rest) rest in
          (found ≡ [])
          ⊎ ((found ≡ "workbench" ∷ [])
              ⊎ ((found ≡ "ide" ∷ []) ⊎ (found ≡ "workbench" ∷ "ide" ∷ [])))
    by_cases true true = inr (inr (inr refl))
    by_cases true false = inr (inl refl)
    by_cases false true = inr (inr (inl refl))
    by_cases false false = inl refl

module _ (compute : WorkspaceCompute) (service : String) (m : Resources) where
  with_gpus-apart :
      (name : String)
      → (gpu_name compute == name) ≡ false
      → quantity name (with_gpus compute service m) ≡ quantity name m
  unfolding with_gpus
  with_gpus-apart name apart =
      elim (Bool-cases (service == "workbench" && ltb_ℤ (pos 0) compute.gpus)) [
        | inl e ↦ rw e (
            quantity-put_quantity name (gpu_name compute) (pos_part compute.gpus * 1000) m
            ∙ rw apart refl)
        | inr e ↦ rw e refl
      ]

  with_gpus-limited :
      (name : String)
      → any (λ (entry : String × ℕ). entry.0 == name) m ≡ true
      → any (λ (entry : String × ℕ). entry.0 == name) (with_gpus compute service m) ≡ true
  unfolding with_gpus
  with_gpus-limited name h =
      elim (Bool-cases (service == "workbench" && ltb_ℤ (pos 0) compute.gpus)) [
        | inl e ↦
            rw e
              (is_limited-put_quantity name (gpu_name compute) (pos_part compute.gpus * 1000) m h)
        | inr e ↦ rw e h
      ]

  -- Where the resources have no GPUs yet, only the workbench gets those of the grant.
  with_gpus-own :
      quantity (gpu_name compute) m ≡ 0
      → quantity (gpu_name compute) (with_gpus compute service m)
        ≤ (if service == "workbench" then pos_part compute.gpus * 1000 else 0)
  unfolding with_gpus
  with_gpus-own none_yet = elim (Bool-cases (service == "workbench")) [
    | inr other ↦ rw (other, none_yet) (omega arith)
    | inl here ↦ elim (Bool-cases (ltb_ℤ (pos 0) compute.gpus)) [
      | inr e ↦ rw (here, e, none_yet) (omega arith)
      | inl e ↦
          rw
            (
              here,
              e,
              quantity-put_quantity (gpu_name compute) (gpu_name compute)
                  (pos_part compute.gpus * 1000) m,
              (eq_iff (gpu_name compute) (gpu_name compute)).1 refl,
            )
            (omega arith)
    ]
  ]

no_gpus :
    (name : String) (cpu memory : ℕ)
    → (name == "cpu") ≡ false
    → (name == "memory") ≡ false
    → quantity name (("cpu", cpu) ∷ ("memory", memory) ∷ []) ≡ 0
unfolding quantity
no_gpus name cpu memory a b =
    ground (arith, eq_iff name "cpu", eq_iff "cpu" name, eq_iff name "memory", eq_iff "memory" name)

-- The GPUs of the grant are counted as a resource of their own.
abbrev pub IsApart : WorkspaceCompute → Type 0
IsApart compute = ((gpu_name compute == "cpu") ≡ false) × ((gpu_name compute == "memory") ≡ false)

module _ (images : Images) (w : Workspace) (secret : String) (apart : IsApart w.spec.compute)
    (parts : ℕ) (service : String) where
  abbrev made : WorkspaceContainer
  made = container_of images w secret parts service

  container_of-limited : (is_limited "cpu" made && is_limited "memory" made) ≡ true
  unfolding container_of
  container_of-limited =
      rw
        (
          with_gpus-limited w.spec.compute service _ "cpu" refl,
          with_gpus-limited w.spec.compute service _ "memory" refl,
        )
        refl

  container_of-cpu : quantity "cpu" made.resources ≡ pos_part w.spec.compute.vcpus * 1000 / parts
  unfolding container_of quantity
  container_of-cpu = with_gpus-apart w.spec.compute service _ "cpu" apart.0

  container_of-memory :
      quantity "memory" made.resources ≡ pos_part w.spec.compute.memory_gb * gibibyte / parts * 1000
  unfolding container_of quantity
  container_of-memory = with_gpus-apart w.spec.compute service _ "memory" apart.1

  container_of-gpus :
      quantity (gpu_name w.spec.compute) made.resources
      ≤ (if service == "workbench" then pos_part w.spec.compute.gpus * 1000 else 0)
  unfolding container_of quantity
  container_of-gpus = with_gpus-own w.spec.compute service _ (
      no_gpus (gpu_name w.spec.compute) (pos_part w.spec.compute.vcpus * 1000 / parts)
        (pos_part w.spec.compute.memory_gb * gibibyte / parts * 1000) apart.0 apart.1)

abbrev Shares : Workspace → List WorkspaceContainer → Type 0
Shares w made =
    let compute = w.spec.compute in
    (all (λ c. is_limited "cpu" c && is_limited "memory" c) made ≡ true)
    × (total (λ c. quantity "cpu" c.resources) made ≤ pos_part compute.vcpus * 1000)
    × (total (λ c. quantity "memory" c.resources) made
        ≤ pos_part compute.memory_gb * gibibyte * 1000)
    × (total (λ c. quantity (gpu_name compute) c.resources) made ≤ pos_part compute.gpus * 1000)

module _ (images : Images) (w : Workspace) (secret : String) (apart : IsApart w.spec.compute) where
  alone : (service : String) → Shares w (container_of images w secret 1 service ∷ [])
  alone service = (
    rw (container_of-limited images w secret apart 1 service) refl,
    rw (container_of-cpu images w secret apart 1 service) (omega arith),
    rw (container_of-memory images w secret apart 1 service) (omega arith),
    at_most service _ (container_of-gpus images w secret apart 1 service),
  )
    where
      at_most :
          (name : String) (got : ℕ)
          → got ≤ (if name == "workbench" then pos_part w.spec.compute.gpus * 1000 else 0)
          → got + 0 ≤ pos_part w.spec.compute.gpus * 1000
      at_most name got h = ground arith

  together :
      Shares w
        (container_of images w secret 2 "workbench" ∷ container_of images w secret 2 "ide" ∷ [])
  together = (
    rw
        (
          container_of-limited images w secret apart 2 "workbench",
          container_of-limited images w secret apart 2 "ide",
        )
        refl,
    rw
        (
          container_of-cpu images w secret apart 2 "workbench",
          container_of-cpu images w secret apart 2 "ide",
        )
        (omega arith),
    rw
        (
          container_of-memory images w secret apart 2 "workbench",
          container_of-memory images w secret apart 2 "ide",
        )
        (omega arith),
    omega (
      arith,
      container_of-gpus images w secret apart 2 "workbench",
      container_of-gpus images w secret apart 2 "ide",
    ),
  )

  containers-Shares : Shares w (containers images w secret)
  unfolding containers
  containers-Shares = elim (services_of-cases w.spec) [
    | inl e ↦ rw (e, containers) (refl, omega arith, omega arith, omega arith)
    | inr (inl e) ↦ rw (e, containers) (alone "workbench")
    | inr (inr (inl e)) ↦ rw (e, containers) (alone "ide")
    | inr (inr (inr e)) ↦ rw (e, containers) together
  ]

replicas_of-le :
    (spec : WorkspaceSpec) (made : List WorkspaceContainer)
    → (spec.disabled ≡ true → replicas_of spec made ≡ 0) × (replicas_of spec made ≤ 1)
unfolding replicas_of
replicas_of-le spec made = (λ d. rw d refl, ground arith)

workspace_plan-IsWithin :
    (images : Images) (w : Workspace) (held : ℕ)
    → IsApart w.spec.compute
    → IsWithin w held (workspace_plan images w (some held))
unfolding workspace_plan
workspace_plan-IsWithin images w held apart =
    let made = containers images w (w.name ++ "-auth") in
    let (limited, cpu, memory, gpus) = containers-Shares images w (w.name ++ "-auth") apart in
    let (asked, kept) = storage-le held (pos_part w.spec.storage_gb * gibibyte) in
    let (off, one) = replicas_of-le w.spec made in
    (limited, cpu, memory, gpus, asked, kept, off, one)

-- Where the GPUs of a grant are not counted as "cpu" or "memory", the plan that a workspace is
-- reconciled to, where its spec is accepted, stays within the grant: each container has a limit on
-- CPUs and on memory, the containers together have no more CPUs, memory and GPUs than the grant, the
-- claim on storage is at least as large as the grant and as it was before, and there is at most one
-- pod, and none where the workspace is suspended.
pub reconcile_workspace-IsWithin :
    (images : Images) (w : Workspace) (held : ℕ) {plan : WorkspacePlan}
    → IsApart w.spec.compute
    → reconcile_workspace images w (some held) ≡ reconciled plan
    → IsWithin w held plan
unfolding reconcile_workspace
reconcile_workspace-IsWithin images w held {plan} apart h =
    elim (Bool-cases (
      is_empty w.spec.subject
      || ltb_ℤ w.spec.compute.vcpus (pos 1)
      || ltb_ℤ w.spec.compute.memory_gb (pos 1)
      || ltb_ℤ w.spec.storage_gb (pos 1))) [
        | inl bad ↦ let h' = rw (bad, reconcile_workspace) at h in cc
        | inr good ↦
            let same : workspace_plan images w (some held) ≡ plan =
              (let h' = rw (good, reconcile_workspace) at h in cc) in
            subst (IsWithin w held) same (workspace_plan-IsWithin images w held apart)
      ]
