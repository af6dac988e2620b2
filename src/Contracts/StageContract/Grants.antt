-- ===== src/Contracts/StageContract/Grants.antt =====
-- What a stage may be granted: never a capability that its contract forbids.
use Prim.Native.String.{String}
use text.Mathlib.Text.{◌==◌ as str_eq}
use text.Mathlib.TextEquality.{eq_iff}
use agent_program.Prelude.{
  ◌≡◌, refl, Bool, true, false, ◌||◌, List, [], ◌∷◌, ◌++◌, arith, any, Bool-cases, inl, inr,
}
use agent_program.Errors.{ok}
use agent_program.Contracts.StageContract.{
  StageContract, capability_in, can_request_capability, check_approved, effective_capabilities,
  is_contract,
}

pub capability_in-append :
    (c : String) (xs ys : List String)
    → capability_in c (xs ++ ys) ≡ (capability_in c xs || capability_in c ys)
capability_in-append c [] ys = refl
capability_in-append c (x ∷ xs) ys = elim (Bool-cases (str_eq c x)) [
  | inl hit ↦ rw hit
  | inr miss ↦ rw (miss, capability_in-append c xs ys)
]

-- A test that no member passes is not passed by a capability that equals a member.
not_any :
    (test : String → Bool) (c : String) (xs : List String)
    → any test xs ≡ false
    → capability_in c xs ≡ true
    → test c ≡ false
not_any test c [] h m = cc
not_any test c (x ∷ xs) h m = elim (Bool-cases (test x)) [
  | inl hit ↦ cc (rw hit at h)
  | inr miss ↦ elim (Bool-cases (str_eq c x)) [
    | inl same ↦ let e : c ≡ x = (eq_iff c x).0 same in rw e miss
    | inr other ↦ not_any test c xs (rw miss at h) (rw other at m)
  ]
]

-- Every approved capability may be requested.
pub approved_requestable :
    (k : StageContract) (c : String) (approved : List String)
    → check_approved k approved ≡ ok tt
    → capability_in c approved ≡ true
    → can_request_capability k c ≡ true
approved_requestable k c [] h m = cc
approved_requestable k c (a ∷ as') h m = elim (Bool-cases (can_request_capability k a)) [
  | inr refused ↦ cc (rw refused at h)
  | inl granted ↦ elim (Bool-cases (str_eq c a)) [
    | inl same ↦ let e : c ≡ a = (eq_iff c a).0 same in rw e granted
    | inr other ↦ approved_requestable k c as' (rw granted at h) (rw other at m)
  ]
]

pub effective_lem :
    (k : StageContract) (approved caps : List String)
    → effective_capabilities k approved ≡ ok caps
    → (check_approved k approved ≡ ok tt) × (caps ≡ k.default_capabilities ++ approved)
unfolding effective_capabilities
effective_lem k approved caps h = (ground arith, ground arith)

-- the fifth test of `is_contract`
no_default_forbidden :
    (k : StageContract)
    → is_contract k ≡ true
    → any (λ d. capability_in d k.forbidden_capabilities) k.default_capabilities ≡ false
unfolding is_contract
no_default_forbidden k h = ground arith

forbids :
    (k : StageContract) (c : String)
    → can_request_capability k c ≡ true
    → capability_in c k.forbidden_capabilities ≡ false
unfolding can_request_capability
forbids k c h = ground arith

-- Of a contract that passed its validator: whatever was approved, the capabilities that are in effect
-- hold none that the contract forbids.
pub effective_not_forbidden :
    (k : StageContract) (approved caps : List String) (c : String)
    → is_contract k ≡ true
    → effective_capabilities k approved ≡ ok caps
    → capability_in c k.forbidden_capabilities ≡ true
    → capability_in c caps ≡ false
effective_not_forbidden k approved caps c valid effective forbidden =
    let (checked, e) = effective_lem k approved caps effective in
    rw (e, capability_in-append c k.default_capabilities approved)
      (neither (capability_in c k.default_capabilities) (capability_in c approved)
        (λ m.
          not_any (λ d. capability_in d k.forbidden_capabilities) c k.default_capabilities
            (no_default_forbidden k valid) m)
        (λ m. forbids k c (approved_requestable k c approved checked m)))
  where
    neither :
        (a b : Bool)
        → (a ≡ true → capability_in c k.forbidden_capabilities ≡ false)
        → (b ≡ true → capability_in c k.forbidden_capabilities ≡ false)
        → (a || b) ≡ false
    neither true b f g = cc (f refl, forbidden)
    neither false true f g = cc (g refl, forbidden)
    neither false false f g = refl
