-- ===== src/Errors.antt =====
-- Failures as values (backend/src/agent_platform/domain/shared/errors.py): a `DomainError` by its
-- code, a `RuntimeError` and a `ValueError` of the models' validators. The message, the details and
-- the category of a `DomainError` are a function of its code and are left out.
use agent_program.Prelude.{◌≡◌, ◌⊎◌, inl, inr, refl, Bool, true, false, Option, none, some}

pub data Entity : Type 0 where
  project workflow stage_run room message task : Entity

pub data Error : Type 0 where
  not_found version_conflict : Entity → Error
  invalid_transition : Error
  project_not_ready active_exists already_started not_running not_current locked : Error
  agent_run_active reopen_requires_completion : Error
  room_archived room_not_writable sequence_conflict consultation_only discussion_only : Error
  task_not_queued workflow_busy queue_order_conflict task_not_running not_cancellable : Error
  room_not_active : Error
  capability_forbidden approval_required capability_not_requestable tool_not_registered : Error
  path_excluded metadata_protected path_out_of_scope path_wrong_kind : Error
  framing_error replay_error : Error
  runtime_error value_error : Error

pub data Result {ℓ} (A : Type ℓ) : Type ℓ where
  err : Error → Result A
  ok : A → Result A

infixl 5 ◌>>=◌ ◌>>◌
abbrev pub ◌>>=◌ {ℓ κ} : {A : Type ℓ} {B : Type κ} → Result A → (A → Result B) → Result B
err raised >>= after = err raised
ok found >>= after = after found

abbrev pub ◌>>◌ {ℓ} : {B : Type ℓ} → Result (Unit {0}) → Result B → Result B
first >> then_ = first >>= λ _. then_

-- `if test: raise e`
abbrev pub raise_if : Bool → Error → Result (Unit {0})
raise_if true e = err e
raise_if false e = ok tt

-- `if row is None: raise e`
abbrev pub or_raise {ℓ} : {A : Type ℓ} → Option A → Error → Result A
or_raise none e = err e
or_raise (some a) e = ok a

-- Inversion of a bind that succeeded, for proofs where the parts stay shut.
pub >>=-eq-ok {ℓ κ} :
    {A : Type ℓ} {B : Type κ} (call : Result A) (rest : A → Result B) {b : B}
    → (call >>= rest) ≡ ok b
    → (a : A) × (call ≡ ok a) × (rest a ≡ ok b)
>>=-eq-ok (err e) rest h = cc
>>=-eq-ok (ok a) rest h = (a, refl, h)

pub >>-eq-ok {ℓ} :
    {B : Type ℓ} (m : Result (Unit {0})) (k : Result B) {b : B}
    → (m >> k) ≡ ok b
    → (m ≡ ok tt) × (k ≡ ok b)
>>-eq-ok (ok tt) k h = (refl, h)
>>-eq-ok (err e) k h = cc

pub Result-cases {ℓ} :
    {A : Type ℓ} (call : Result A) → ((e : Error) × (call ≡ err e)) ⊎ ((a : A) × (call ≡ ok a))
Result-cases (err e) = inl (e, refl)
Result-cases (ok a) = inr (a, refl)
