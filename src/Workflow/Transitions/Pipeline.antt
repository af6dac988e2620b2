-- ===== src/Workflow/Transitions/Pipeline.antt =====
-- The five stages of a workflow form a pipeline: those before the current stage are completed, those
-- behind it are locked, and a transition keeps that.
use agent_program.Prelude.{
  ℕ, ◌+◌, ◌<◌, ◌≡◌, sym, Bool, true, false, Option, none, some, List, arith, get_row, put_row,
  KeysDistinct, put_row-KeysDistinct, Bool-cases, inl, inr,
}
use mathlib.Core.Path.{subst}
use agent_program.Contracts.Stages.{
  Stage, stage_index, stage_eq, stage_eq_sound, successor, predecessor-successor, ready, locked,
  completed, state_eq,
}
use agent_program.Workflow.Models.{StageRun}
use agent_program.Workflow.Queries.{run_key, of_stage, current_stage_run_row}
use agent_program.Workflow.Queries.Current.{
  SamePlace, current-get_row, current-put_row_self, current-put_row_other,
}

-- How the current run of a stage fits in, where `done` says whether the workflow is completed: the
-- run exists; a stage before the current one is completed; a later one is locked; the current one
-- is not locked, and is completed exactly if the workflow is.
abbrev pub StageFits : Stage → Bool → Stage → Option StageRun → Type 0
StageFits cur done s none = ⊥
StageFits cur done s (some r) =
    (stage_index s < stage_index cur → state_eq r.state completed ≡ true)
    × (stage_index cur < stage_index s → state_eq r.state locked ≡ true)
    × (stage_eq cur s ≡ true → state_eq r.state locked ≡ false)
    × (stage_eq cur s ≡ true → state_eq r.state completed ≡ done)

-- The stage runs of the workflow `wid` with the current stage `cur`.
abbrev pub IsPipeline : Stage → Bool → ℕ → List StageRun → Type 0
IsPipeline cur done wid runs = (s : Stage) → StageFits cur done s (current_stage_run_row wid s runs)

-- What a change of the current stage's run leaves of the other stages.
keeps_others :
    (cur s : Stage) (done : Bool) (o : Option StageRun)
    → stage_eq cur s ≡ false
    → StageFits cur false s o
    → StageFits cur done s o
keeps_others cur s done none other fits = fits
keeps_others cur s done (some r) other fits =
    (fits.0, fits.1, λ same. cc (same, other), λ same. cc (same, other))

-- The stages other than the current and the next one, after the move to the next.
keeps_far :
    (cur next s : Stage) (o : Option StageRun)
    → stage_index next ≡ stage_index cur + 1
    → stage_eq cur s ≡ false
    → stage_eq next s ≡ false
    → StageFits cur false s o
    → StageFits next false s o
keeps_far cur next s none step other far fits = fits
keeps_far cur next s (some r) step other far fits = (
  λ before. fits.0 (ground (arith, other, far, before, step)),
  λ behind. fits.1 (ground (arith, other, far, behind, step)),
  λ same. cc (same, far),
  λ same. cc (same, far),
)

module _ (wid : ℕ) (cur : Stage) (runs : List StageRun) (distinct : KeysDistinct run_key runs)
    (y r : StageRun) (found : current_stage_run_row wid cur runs ≡ some y)
    (same : SamePlace r y) where
  view_self : current_stage_run_row wid cur (put_row run_key r runs) ≡ some r
  view_self = current-put_row_self wid cur r y runs distinct found same

  other_stage :
      (s : Stage) → of_stage wid cur y ≡ true → stage_eq cur s ≡ false → stage_eq y.stage s ≡ false
  other_stage s passes other = ground arith

  view_other :
      (s : Stage)
      → stage_eq cur s ≡ false
      → current_stage_run_row wid s (put_row run_key r runs) ≡ current_stage_run_row wid s runs
  view_other s other =
      let (at_y, passes) = current-get_row wid cur y runs distinct found in
      current-put_row_other wid s r y runs distinct
        (subst (λ k. get_row run_key k runs ≡ some y) (sym same.0) at_y) same
        (other_stage s passes other)

module _ (wid : ℕ) (cur : Stage) (runs : List StageRun) (distinct : KeysDistinct run_key runs)
    (y r : StageRun) (found : current_stage_run_row wid cur runs ≡ some y) (same : SamePlace r y)
    (pipeline : IsPipeline cur false wid runs) where
  -- The current run took a new state and stays the current one.
  pub IsPipeline-put_row :
      (done : Bool)
      → state_eq r.state locked ≡ false
      → state_eq r.state completed ≡ done
      → IsPipeline cur done wid (put_row run_key r runs)
  IsPipeline-put_row done open_state state s = elim (Bool-cases (stage_eq cur s)) [
    | inl here ↦
        let e : cur ≡ s = stage_eq_sound cur s here in
        subst (λ k. StageFits cur done k (current_stage_run_row wid k (put_row run_key r runs))) e
          (rw (view_self wid cur runs distinct y r found same) (
            (λ h. absurd (omega arith)),
            (λ h. absurd (omega arith)),
            (λ _. open_state),
            (λ _. state),
          ))
    | inr other ↦
        rw (view_other wid cur runs distinct y r found same s other)
          (keeps_others cur s done _ other (pipeline s))
  ]

  -- The current run is completed, and the run `u` of the next stage was unlocked as `u'`.
  module _ (next : Stage) (u u' : StageRun) (step : successor cur ≡ some next)
      (state : state_eq r.state completed ≡ true)
      (found_u : current_stage_run_row wid next (put_row run_key r runs) ≡ some u)
      (same_u : SamePlace u' u) (is_ready : state_eq u'.state ready ≡ true) where
    distinct' : KeysDistinct run_key (put_row run_key r runs)
    distinct' = put_row-KeysDistinct run_key r runs distinct

    next_index : stage_index next ≡ stage_index cur + 1
    next_index = (predecessor-successor cur next step).1

    open_at_next : (state_eq u'.state locked ≡ false) × (state_eq u'.state completed ≡ false)
    open_at_next = ground arith

    fits_elsewhere :
        (s : Stage)
        → stage_eq next s ≡ false
        → StageFits next false s (current_stage_run_row wid s (put_row run_key r runs))
    fits_elsewhere s far = elim (Bool-cases (stage_eq cur s)) [
      | inl here ↦
          let e : cur ≡ s = stage_eq_sound cur s here in
          subst (λ k. StageFits next false k (current_stage_run_row wid k (put_row run_key r runs)))
            e
            (rw (view_self wid cur runs distinct y r found same) (
              (λ _. state),
              (λ h. absurd (omega (arith, next_index))),
              (λ h. absurd (differ h)),
              (λ h. absurd (differ h)),
            ))
      | inr other ↦
          rw (view_other wid cur runs distinct y r found same s other)
            (keeps_far cur next s _ next_index other far (pipeline s))
    ]
      where
        differ : stage_eq next cur ≡ true → ⊥
        differ h = ground (arith, next_index)

    pub IsPipeline-unlock : IsPipeline next false wid (put_row run_key u' (put_row run_key r runs))
    IsPipeline-unlock s = elim (Bool-cases (stage_eq next s)) [
      | inl here ↦
          let e : next ≡ s = stage_eq_sound next s here in
          subst
            (λ k.
              StageFits next false k
                (current_stage_run_row wid k (put_row run_key u' (put_row run_key r runs))))
            e
            (rw (view_self wid next (put_row run_key r runs) distinct' u u' found_u same_u) (
              (λ h. absurd (omega arith)),
              (λ h. absurd (omega arith)),
              (λ _. open_at_next.0),
              (λ _. open_at_next.1),
            ))
      | inr far ↦
          rw (view_other wid next (put_row run_key r runs) distinct' u u' found_u same_u s far)
            (fits_elsewhere s far)
    ]
