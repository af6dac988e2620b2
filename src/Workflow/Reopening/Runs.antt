-- ===== src/Workflow/Reopening/Runs.antt =====
-- Which runs a reopening replaces.
use agent_program.Prelude.{
  ℕ, ◌≤◌, ◌≡◌, Bool, true, false, ◌&&◌, List, [], ◌∷◌, ◌==◌, leb, any, arith, some, All,
  test-first_by, first_by, Bool-cases, inl, inr, Option-cases,
}
use agent_program.Contracts.Stages.{Stage, stage_index, stage_order}
use agent_program.Workflow.Models.{StageRun}
use agent_program.Workflow.Queries.{
  current_stage_run_row, current_stage_run_rows, current_of, newer, of_stage,
}
use agent_program.Workflow.Reopening.{is_affected}

-- The run is the current one of the stage or of one behind it.
abbrev pub IsReplaced : ℕ → Stage → List StageRun → ℕ → Type 0
IsReplaced wid stage runs rid =
    (later : Stage) × (r : StageRun) × (stage_index stage ≤ stage_index later)
    × (current_stage_run_row wid later runs ≡ some r)
    × (r.id ≡ rid)

abbrev passes : Stage → ℕ → StageRun → Bool
passes stage rid r = leb (stage_index stage) (stage_index r.stage) && r.id == rid

later_stage :
    (wid : ℕ) (stage later : Stage) (rid : ℕ) (r : StageRun)
    → of_stage wid later r ≡ true
    → passes stage rid r ≡ true
    → (stage_index stage ≤ stage_index later) × (r.id ≡ rid)
later_stage wid stage later rid r own hit = ground (arith, own, hit)

earlier_stage :
    (wid : ℕ) (stage later : Stage) (rid : ℕ) (r : StageRun)
    → of_stage wid later r ≡ true
    → stage_index stage ≤ stage_index later
    → r.id ≡ rid
    → passes stage rid r ≡ false
    → ⊥
earlier_stage wid stage later rid r own le same miss = ground (arith, own, le, same, miss)

module _ (wid : ℕ) (stage : Stage) (runs : List StageRun) (rid : ℕ) where
  found-IsReplaced :
      (ss : List Stage)
      → any (passes stage rid) (current_of wid runs ss) ≡ true
      → IsReplaced wid stage runs rid
  unfolding current_stage_run_row
  found-IsReplaced [] h = cc
  found-IsReplaced (s ∷ ss) h = elim (Option-cases (first_by newer (of_stage wid s) runs)) [
    | inl nothing ↦ found-IsReplaced ss (rw nothing at h)
    | inr (r, found) ↦ elim (Bool-cases (passes stage rid r)) [
      | inl hit ↦
          let own = test-first_by newer (of_stage wid s) r runs found in
          let (le, same) = later_stage wid stage s rid r own hit in (s, r, le, found, same)
      | inr miss ↦ found-IsReplaced ss (rw (found, miss) at h)
    ]
  ]

  -- No current run of the stages passes.
  abbrev NoneOf : List Stage → Type 0
  NoneOf ss =
      All
        (λ s.
          (r : StageRun)
          → first_by newer (of_stage wid s) runs ≡ some r
          → passes stage rid r ≡ false)
        ss

  none_of : (ss : List Stage) → any (passes stage rid) (current_of wid runs ss) ≡ false → NoneOf ss
  none_of [] h = tt
  none_of (s ∷ ss) h = elim (Option-cases (first_by newer (of_stage wid s) runs)) [
    | inl nothing ↦ ((λ r found. cc), none_of ss (rw nothing at h))
    | inr (r, found) ↦ elim (Bool-cases (passes stage rid r)) [
      | inl hit ↦ cc (rw (found, hit) at h)
      | inr miss ↦ (
        (λ x found'. let same : r ≡ x = cc in rw same at miss),
        none_of ss (rw (found, miss) at h),
      )
    ]
  ]

  at_stage :
      NoneOf stage_order
      → (s : Stage) (r : StageRun) → first_by newer (of_stage wid s) runs ≡ some r
      → passes stage rid r ≡ false
  at_stage h Stage.planner = h.0
  at_stage h Stage.designer = h.1.0
  at_stage h Stage.builder = h.1.1.0
  at_stage h Stage.reviewer = h.1.1.1.0
  at_stage h Stage.deployer = h.1.1.1.1.0

  pub affected-IsReplaced :
      is_affected stage (current_stage_run_rows wid runs) rid ≡ true → IsReplaced wid stage runs rid
  unfolding current_stage_run_rows
  affected-IsReplaced h = found-IsReplaced stage_order h

  pub unaffected_kept :
      is_affected stage (current_stage_run_rows wid runs) rid ≡ false
      → ¬ (IsReplaced wid stage runs rid)
  unfolding current_stage_run_rows current_stage_run_row
  unaffected_kept h (later, r, le, found, same) =
      earlier_stage wid stage later rid r (test-first_by newer (of_stage wid later) r runs found) le
        same (at_stage (none_of stage_order h) later r found)
