-- ===== src/Store/Runs/Invariant.antt =====
-- The consistency of a pipeline run: its status and progress against its steps.
use mlops.Base.{
  ℕ, zero, suc, ◌*◌, ◌/◌, ◌≤◌, ◌<◌, ◌≡◌, ◌≢◌, ◌↔◌, refl, String, Bool, true, false, List, [], ◌∷◌,
  ◌⊎◌, ◌||◌, inl, inr, ◌==◌, eq_iff, length, arith, Bool-cases,
}
use mlops.Base.Int.{ℤ, pos, ◌≤ℤ◌}
use mlops.Api.Value.{Time}
use mlops.Api.Pipeline.{PipelineStep, PipelineRun, UpdateRunStepRequest}
use mlops.Store.Steps.{
  report_step, completed_steps, failed_steps, apply_step_transition, verdict, advance,
}
use mlops.Store.Runs.{is_terminal, report, cancel, link}

abbrev pub is_run_status : String → Bool
is_run_status status = status == "queued" || status == "running" || is_terminal status

-- A status and a progress agree with a list of steps.
pub record Agrees (status : String) (progress : ℤ) (steps : List PipelineStep) : Type 0 where
  pub known : is_run_status status ≡ true
  pub positive : pos 0 ≤ℤ progress
  pub within : progress ≤ℤ pos 100
  pub all_completed :
      status ≡ "succeeded" → (completed_steps steps ≡ length steps) × (progress ≡ pos 100)
  pub some_failed : status ≡ "failed" → 0 < failed_steps steps

-- A run's status and progress agree with its steps.
abbrev pub IsConsistent : PipelineRun → Type 0
IsConsistent run = Agrees run.status run.progress run.steps

completed-le-length : (steps : List PipelineStep) → completed_steps steps ≤ length steps
unfolding completed_steps
completed-le-length [] = omega arith
completed-le-length (step ∷ steps) = ground (arith, completed-le-length steps)

share_within : (completed total : ℕ) → completed ≤ total → completed * 100 / total ≤ 100
share_within completed zero h = omega arith
share_within completed (suc n) h = grind arith

pub ne_of_==-false : {a b : String} → (a == b) ≡ false → a ≢ b
ne_of_==-false {a} {b} h e = cc ((eq_iff a b).1 e)

module _ (steps : List PipelineStep) where
  advance_within :
      (progress : ℤ)
      → pos 0 ≤ℤ progress
      → progress ≤ℤ pos 100
      → (pos 0 ≤ℤ advance steps progress) × (advance steps progress ≤ℤ pos 100)
  unfolding advance
  advance_within progress low high =
      ground (arith, completed-le-length steps, share_within (completed_steps steps) (length steps))

  advance_full :
      (progress : ℤ)
      → failed_steps steps ≡ 0
      → completed_steps steps ≡ length steps
      → advance steps progress ≡ pos 100
  unfolding advance
  advance_full progress unfailed all = ground arith

  -- The last transition fails the run exactly when a step has failed.
  verdict-failed :
      (status : String)
      → is_terminal status ≡ false
      → (verdict steps status ≡ "failed") ↔ (0 < failed_steps steps)
  unfolding verdict
  verdict-failed status live =
      ground (arith, eq_iff status "failed", eq_iff "running" "failed", eq_iff "succeeded" "failed")

  verdict-succeeded :
      (status : String)
      → is_terminal status ≡ false
      → (verdict steps status ≡ "succeeded")
        ↔ ((failed_steps steps ≡ 0) × (completed_steps steps ≡ length steps))
  unfolding verdict
  verdict-succeeded status live =
      ground (
        arith,
        eq_iff status "succeeded",
        eq_iff "running" "succeeded",
        eq_iff "failed" "succeeded",
      )

  verdict_cases :
      (status : String)
      → (verdict steps status ≡ "failed")
        ⊎ ((verdict steps status ≡ "succeeded")
            ⊎ ((verdict steps status ≡ "running") ⊎ (verdict steps status ≡ status)))
  unfolding verdict
  verdict_cases status = ground arith

  verdict-is_run_status :
      (status : String) → is_run_status status ≡ true → is_run_status (verdict steps status) ≡ true
  verdict-is_run_status status h = elim (verdict_cases status) [
    | inl e ↦ rw e
    | inr (inl e) ↦ rw e
    | inr (inr (inl e)) ↦ rw e
    | inr (inr (inr e)) ↦ rw e h
  ]

  verdict-Agrees :
      {before : List PipelineStep} (status : String) (progress : ℤ)
      → Agrees status progress before
      → is_terminal status ≡ false
      → Agrees (verdict steps status) (advance steps progress) steps
  verdict-Agrees status progress h live = record {
    known = verdict-is_run_status status h.known;
    positive = (advance_within progress h.positive h.within).0;
    within = (advance_within progress h.positive h.within).1;
    all_completed = λ e.
        let (unfailed, all) = (verdict-succeeded status live).0 e in
        (all, advance_full progress unfailed all);
    some_failed = (verdict-failed status live).0;
  }

-- A reported transition keeps a run consistent.
pub report-IsConsistent :
    (now : Time) (req : UpdateRunStepRequest) (run : PipelineRun)
    → IsConsistent run
    → IsConsistent (report now req run)
unfolding report apply_step_transition
report-IsConsistent now req run h = elim (Bool-cases (is_terminal run.status)) [
  | inl e ↦ rw e h
  | inr e ↦ rw e (verdict-Agrees (report_step req run.steps) run.status run.progress h e)
]

-- After a report on a run that has not ended, the run has failed exactly when some step has failed,
-- and has succeeded exactly when no step has failed and every step is completed.
pub report-verdict :
    (now : Time) (req : UpdateRunStepRequest) (run : PipelineRun)
    → is_terminal run.status ≡ false
    → let run' = report now req run in
      ((run'.status ≡ "failed") ↔ (0 < failed_steps run'.steps))
      × ((run'.status ≡ "succeeded")
          ↔ ((failed_steps run'.steps ≡ 0) × (completed_steps run'.steps ≡ length run'.steps)))
unfolding report apply_step_transition
report-verdict now req run live =
    rw (live, report)
      (
        verdict-failed (report_step req run.steps) run.status live,
        verdict-succeeded (report_step req run.steps) run.status live,
      )

pub cancel-IsConsistent :
    (now now' : Time) (actor : String) (run : PipelineRun)
    → IsConsistent run
    → IsConsistent (cancel now now' actor run)
unfolding cancel
cancel-IsConsistent now now' actor run h = record {
  known = refl;
  positive = h.positive;
  within = h.within;
  all_completed = λ e. absurd (ne_of_==-false refl e);
  some_failed = λ e. absurd (ne_of_==-false refl e);
}

pub link-IsConsistent :
    (now : Time) (engine_run_id : String) (run : PipelineRun)
    → IsConsistent run
    → IsConsistent (link now engine_run_id run)
unfolding link
link-IsConsistent now engine_run_id run h = h

-- A run with status "queued" and progress 0 is consistent, whatever its steps.
pub queued-Agrees : (steps : List PipelineStep) → Agrees "queued" (pos 0) steps
queued-Agrees steps = record {
  known = refl;
  positive = omega arith;
  within = omega arith;
  all_completed = λ e. absurd (ne_of_==-false refl e);
  some_failed = λ e. absurd (ne_of_==-false refl e);
}
