-- ===== src/Events/Dispatcher/Leases.antt =====
-- The claims of a run, claims that have lost their lease, and the waiting time of a retry.
use agent_program.Prelude.{
  ℕ, ◌+◌, ◌*◌, ◌-◌, ◌^◌, ◌≤◌, ◌≡◌, ◌≢◌, refl, ap, ◌∙◌, Bool, true, false, ◌&&◌, none, some, List,
  [], ◌∷◌, ◌==◌, arith, get_row, All, Bool-cases, inl, inr, ltb, leb, min, length, zero, suc,
}
use mathlib.Core.Path.{subst}
use agent_program.Errors.{ok}
use agent_program.Events.Log.{EventStore, Delivery, Consumer, DeliveryErrorCategory}
use agent_program.Events.Outbox.{
  OutboxSettings, Claim, delivery_key, find_owned, owns, is_leased, record_failure, retry_delay,
}
use agent_program.Events.LocalAudit.{publish_audit}
use agent_program.Events.Outbox.Invariant.{RowFits, attempts}
use agent_program.Events.Dispatcher.Steps.{claim_next-Keeps}
use agent_program.Events.Dispatcher.Rounds.{recover_expired_leases-Keeps, dispatch_claim-Keeps}
use agent_program.Events.Dispatcher.Traces.{
  System, Step, Reaches, IsSystem, recovers, claims, dispatches, start, step, Reaches-IsSystem,
  issued-fits,
}

-- the claims along a run
abbrev pub claimed_by :
    {settings : OutboxSettings} {publishers : List Consumer} {s t : System}
    → Step settings publishers s t
    → ℕ
claimed_by (recovers now) = 0
claimed_by (claims token now h) = 1
claimed_by (dispatches c outcome now m h) = 0

abbrev pub claimed_in :
    {settings : OutboxSettings} {publishers : List Consumer} {s t : System}
    → Reaches settings publishers s t
    → ℕ
claimed_in start = 0
claimed_in (step r h) = claimed_by h + claimed_in r

attempts_bound :
    (most : ℕ) (ds : List Delivery) → All (RowFits most) ds → attempts ds ≤ most * length ds
attempts_bound most [] h = omega arith
attempts_bound most (d ∷ ds) h = omega (arith, attempts_bound most ds h.1, h.0.0)

Step-attempts :
    (settings : OutboxSettings) (publishers : List Consumer) {s t : System}
    (h : Step settings publishers s t)
    → IsSystem settings.max_attempts s
    → (claimed_by h + attempts s.store.deliveries ≤ attempts t.store.deliveries)
      × (length t.store.deliveries ≡ length s.store.deliveries)
Step-attempts settings publishers (recovers {store} now) i =
    let k = recover_expired_leases-Keeps settings now store i.outbox in
    (omega (arith, k.tried), k.same_length)
Step-attempts settings publishers (claims {store} {store'} {issued} {c} token now h) i =
    let (k, fits) = claim_next-Keeps settings token now store (some c) store' i.outbox h in
    (omega (arith, (fits c refl).1), k.same_length)
Step-attempts settings publishers (dispatches {store} {store'} {issued} c outcome now m h) i =
    let k =
      dispatch_claim-Keeps settings publishers c outcome now store store' i.outbox
        (issued-fits store.deliveries c issued i.fitting m) h in
    (omega (arith, k.tried), k.same_length)

Reaches-attempts :
    (settings : OutboxSettings) (publishers : List Consumer) (s t : System)
    (r : Reaches settings publishers s t)
    → IsSystem settings.max_attempts s
    → (claimed_in r + attempts s.store.deliveries ≤ attempts t.store.deliveries)
      × (length t.store.deliveries ≡ length s.store.deliveries)
Reaches-attempts settings publishers s t start i = (omega arith, refl)
Reaches-attempts settings publishers s t (step {t = u} r h) i =
    let before = Reaches-attempts settings publishers s u r i in
    let last = Step-attempts settings publishers h (Reaches-IsSystem settings publishers s u i r) in
    (omega (arith, before.0, last.0), last.1 ∙ before.1)

-- From a system with the invariant, where no event is appended: a run of any length, in any order
-- of its steps, makes at most `max_attempts` claims for each delivery, those made before included.
pub claims_are_bounded :
    (settings : OutboxSettings) (publishers : List Consumer) (s t : System)
    (r : Reaches settings publishers s t)
    → IsSystem settings.max_attempts s
    → claimed_in r + attempts s.store.deliveries ≤ settings.max_attempts * length s.store.deliveries
claims_are_bounded settings publishers s t r i =
    let j = Reaches-IsSystem settings publishers s t i r in
    let (tried, same) = Reaches-attempts settings publishers s t r i in
    let bound : attempts t.store.deliveries ≤ settings.max_attempts * length s.store.deliveries =
      subst (λ n. attempts t.store.deliveries ≤ settings.max_attempts * n) same
        (attempts_bound settings.max_attempts t.store.deliveries j.outbox.rows) in
    omega (arith, tried, bound)

not_owned :
    (claim : Claim) (store : EventStore) (d : Delivery) (t : ℕ)
    → get_row delivery_key claim.delivery_id store.deliveries ≡ some d
    → d.lease_token ≡ some t
    → t ≢ claim.lease_token
    → find_owned claim store ≡ none
not_owned claim store d t read held other =
    let differs : (t == claim.lease_token) ≡ false = ground (arith, other) in
    let lost : owns claim.lease_token d ≡ false =
      rw (held, differs) (and_false (is_leased d.delivery_state)) in
    rw (read, lost)
  where
    and_false : (b : Bool) → (b && false) ≡ false
    and_false true = refl
    and_false false = refl

-- A claim of at least one attempt, whose delivery holds another lease token, can neither deliver it
-- nor record a failure: both leave the store as it is.
pub stale_claim_has_no_effect :
    (settings : OutboxSettings) (claim : Claim) (category : DeliveryErrorCategory) (now : ℕ)
    (store : EventStore) (d : Delivery) (t : ℕ)
    → get_row delivery_key claim.delivery_id store.deliveries ≡ some d
    → d.lease_token ≡ some t
    → t ≢ claim.lease_token
    → 1 ≤ claim.attempt_count
    → (publish_audit claim now store ≡ store)
      × (record_failure settings claim category now store ≡ ok (false, store))
unfolding publish_audit record_failure retry_delay
stale_claim_has_no_effect settings claim category now store d t read held other tried =
    let nothing = not_owned claim store d t read held other in
    let started : ltb claim.attempt_count 1 ≡ false = ground arith in
    (
      rw nothing,
      elim (Bool-cases (leb settings.max_attempts claim.attempt_count)) [
        | inl last ↦ rw (last, nothing)
        | inr more ↦ rw (more, started, nothing)
      ],
    )

pow_le : (k n : ℕ) → 2 ^ n ≤ 2 ^ (k + n)
pow_le zero n = let same : zero + n ≡ n = omega arith in rw same (omega arith)
pow_le (suc k) n =
    let same : suc k + n ≡ suc (k + n) = omega arith in rw same (omega (arith, pow_le k n))

mul_le : (c a b : ℕ) → a ≤ b → c * a ≤ c * b
mul_le zero a b h = omega arith
mul_le (suc c) a b h = omega (arith, mul_le c a b h)

delay_of : (n base maximum : ℕ) → retry_delay (suc n) base maximum ≡ ok (min maximum (base * 2 ^ n))
unfolding retry_delay
delay_of n base maximum =
    let started : ltb (suc n) 1 ≡ false = ground arith in
    let before : suc n - 1 ≡ n = omega arith in rw (started, before)

-- The waiting time before a retry is defined for every attempt from the first on, is at most the
-- configured maximum, never shrinks from one attempt to a later one, and after the first attempt it is
-- the base or the maximum, the smaller of them.
pub retry_delay_bounds :
    (n k base maximum : ℕ)
    → (a : ℕ) × (b : ℕ) × (retry_delay (suc n) base maximum ≡ ok a)
      × (retry_delay (suc (k + n)) base maximum ≡ ok b)
      × (a ≤ b)
      × (b ≤ maximum)
      × (retry_delay 1 base maximum ≡ ok (min maximum base))
retry_delay_bounds n k base maximum =
    let grows : base * 2 ^ n ≤ base * 2 ^ (k + n) =
      mul_le base (2 ^ n) (2 ^ (k + n)) (pow_le k n) in
    let first : base * 2 ^ 0 ≡ base = omega arith in
    (
      min maximum (base * 2 ^ n),
      min maximum (base * 2 ^ (k + n)),
      delay_of n base maximum,
      delay_of (k + n) base maximum,
      omega (arith, grows),
      omega arith,
      delay_of 0 base maximum ∙ ap (λ x. ok (min maximum x)) first,
    )
