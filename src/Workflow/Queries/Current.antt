-- ===== src/Workflow/Queries/Current.antt =====
-- The current run of a stage under writes to the table of stage runs.
use agent_program.Prelude.{
  ℕ, ◌≡◌, refl, ap, sym, ◌∙◌, Bool, true, false, Option, none, some, List, [], ◌∷◌, arith, get_row,
  put_row, first_by, pick, Option-cases, Bool-cases, inl, inr, ◌==◌, KeysDistinct, if◌then◌else◌,
  put_row-head, All-get_row_self, first_by-All, ==_iff,
}
use agent_program.Contracts.Stages.{Stage, stage_eq, stage_index}
use mathlib.Core.Path.{subst}
use agent_program.Workflow.Models.{StageRun}
use agent_program.Workflow.Queries.{run_key, newer, of_stage, current_stage_run_row}

-- The columns by which the current run is chosen.
abbrev pub SamePlace : StageRun → StageRun → Type 0
SamePlace a b =
    (a.id ≡ b.id) × (a.workflow_id ≡ b.workflow_id) × (a.stage ≡ b.stage) × (a.attempt ≡ b.attempt)

-- The answer of a query after the row with the identifier of `r` was replaced by `r`.
abbrev pub replaced : StageRun → Option StageRun → Option StageRun
replaced r none = none
replaced r (some x) = if x.id == r.id then some r else some x

abbrev matching : ℕ → Stage → StageRun → List StageRun → Option StageRun
matching wid s r rs = pick newer (of_stage wid s r) r (first_by newer (of_stage wid s) rs)

pick-replaced_other :
    (m : Bool) (r x : StageRun) (o : Option StageRun)
    → (y : StageRun) → SamePlace r y
    → (x.id == r.id) ≡ false
    → ((b : StageRun) → o ≡ some b → (b.id == r.id) ≡ true → b ≡ y)
    → pick newer m x (replaced r o) ≡ replaced r (pick newer m x o)
pick-replaced_other false r x o y same differs only = refl
pick-replaced_other true r x none y same differs only = rw differs
pick-replaced_other true r x (some b) y same differs only = elim (Bool-cases (b.id == r.id)) [
  | inl hit ↦ ground (arith, only b, same)
  | inr miss ↦ ground (arith, miss, differs)
]

pick-replaced_same :
    (wid : ℕ) (s : Stage) (r x : StageRun) (o : Option StageRun)
    → SamePlace r x
    → ((b : StageRun) → o ≡ some b → (b.id == r.id) ≡ false)
    → pick newer (of_stage wid s r) r o ≡ replaced r (pick newer (of_stage wid s x) x o)
pick-replaced_same wid s r x none same other = ground (arith, same)
pick-replaced_same wid s r x (some b) same other = ground (arith, same, other b)

module _ (wid : ℕ) (s : Stage) where
  -- With distinct identifiers the run that is found is the row of its identifier.
  found_own :
      (b : StageRun) (rs : List StageRun)
      → KeysDistinct run_key rs
      → first_by newer (of_stage wid s) rs ≡ some b
      → get_row run_key b.id rs ≡ some b
  found_own b rs d found =
      (first_by-All newer (λ x. get_row run_key x.id rs ≡ some x) (of_stage wid s) b rs
        (All-get_row_self run_key rs d) found).0

  same_row :
      (a b : ℕ) (x y : StageRun) (rs : List StageRun)
      → (a == b) ≡ true
      → get_row run_key a rs ≡ some x
      → get_row run_key b rs ≡ some y
      → x ≡ y
  same_row a b x y rs e p q = let e' : a ≡ b = (==_iff a b).0 e in cc

  not_absent :
      (a b : ℕ) (x : StageRun) (rs : List StageRun)
      → get_row run_key a rs ≡ some x
      → get_row run_key b rs ≡ none
      → (a == b) ≡ false
  not_absent a b x rs p q = elim (Bool-cases (a == b)) [
    | inl same ↦ let e : a ≡ b = (==_iff a b).0 same in cc
    | inr differs ↦ differs
  ]

  first_by-put_row :
      (r y : StageRun) (rs : List StageRun)
      → KeysDistinct run_key rs
      → get_row run_key r.id rs ≡ some y
      → SamePlace r y
      → first_by newer (of_stage wid s) (put_row run_key r rs)
        ≡ replaced r (first_by newer (of_stage wid s) rs)
  first_by-put_row r y [] d e same = cc
  first_by-put_row r y (x ∷ rs) d e same = elim (Bool-cases (x.id == r.id)) [
    | inl here ↦
        let here' : x.id ≡ r.id = (==_iff x.id r.id).0 here in
        let e' : some x ≡ some y = rw here at e in
        let is_y : y ≡ x = cc e' in
        let absent : get_row run_key r.id rs ≡ none = rw here' at d.0 in
        rw (put_row-head run_key r x rs here d.0) (
          pick-replaced_same wid s r x (first_by newer (of_stage wid s) rs) (rw is_y at same)
            (λ b found. not_absent b.id r.id b rs (found_own b rs d.1 found) absent))
    | inr differs ↦
        let e' : get_row run_key r.id rs ≡ some y = rw differs at e in
        rw (differs, first_by-put_row r y rs d.1 e' same)
          (pick-replaced_other (of_stage wid s x) r x (first_by newer (of_stage wid s) rs) y same
            differs (λ b found hit. same_row b.id r.id b y rs hit (found_own b rs d.1 found) e'))
  ]

  -- A write to a run that leaves its place changes the current run of a stage only where it is that
  -- run.
  pub current-put_row :
      (r y : StageRun) (rs : List StageRun)
      → KeysDistinct run_key rs
      → get_row run_key r.id rs ≡ some y
      → SamePlace r y
      → current_stage_run_row wid s (put_row run_key r rs)
        ≡ replaced r (current_stage_run_row wid s rs)
  unfolding current_stage_run_row
  current-put_row = first_by-put_row

  -- The current run of a stage is a row of the table, of that stage and workflow.
  pub current-get_row :
      (b : StageRun) (rs : List StageRun)
      → KeysDistinct run_key rs
      → current_stage_run_row wid s rs ≡ some b
      → (get_row run_key b.id rs ≡ some b) × (of_stage wid s b ≡ true)
  unfolding current_stage_run_row
  current-get_row b rs d found =
      first_by-All newer (λ x. get_row run_key x.id rs ≡ some x) (of_stage wid s) b rs
        (All-get_row_self run_key rs d) found

  -- A write to the current run of the stage is what the query then returns.
  pub current-put_row_self :
      (r y : StageRun) (rs : List StageRun)
      → KeysDistinct run_key rs
      → current_stage_run_row wid s rs ≡ some y
      → SamePlace r y
      → current_stage_run_row wid s (put_row run_key r rs) ≡ some r
  current-put_row_self r y rs d found same =
      let at_y = (current-get_row y rs d found).0 in
      let at_r : get_row run_key r.id rs ≡ some y =
        subst (λ k. get_row run_key k rs ≡ some y) (sym same.0) at_y in
      current-put_row r y rs d at_r same
      ∙ ap (replaced r) found
      ∙ rw ((==_iff y.id r.id).1 (sym same.0))

  -- A write to a run of another stage is not seen.
  pub current-put_row_other :
      (r y : StageRun) (rs : List StageRun)
      → KeysDistinct run_key rs
      → get_row run_key r.id rs ≡ some y
      → SamePlace r y
      → stage_eq y.stage s ≡ false
      → current_stage_run_row wid s (put_row run_key r rs) ≡ current_stage_run_row wid s rs
  current-put_row_other r y rs d at_r same other =
      elim (Option-cases (current_stage_run_row wid s rs)) [
        | inl nothing ↦ current-put_row r y rs d at_r same ∙ ap (replaced r) nothing ∙ sym nothing
        | inr (b, found) ↦
            let (at_b, passes) = current-get_row b rs d found in
            let differs : (b.id == r.id) ≡ false = elim (Bool-cases (b.id == r.id)) [
              | inl hit ↦
                  let e : b ≡ y = same_row b.id r.id b y rs hit at_b at_r in
                  other_stage b y e passes other
              | inr miss ↦ miss
            ] in
            current-put_row r y rs d at_r same ∙ ap (replaced r) found ∙ rw differs (sym found)
      ]
    where
      other_stage :
          (b y : StageRun)
          → b ≡ y
          → of_stage wid s b ≡ true
          → stage_eq y.stage s ≡ false
          → (b.id == r.id) ≡ false
      other_stage b y e p q = ground (arith, ap (λ (x : StageRun). stage_index x.stage) e)
