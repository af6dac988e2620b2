-- ===== src/Events/Broker/Gaps.antt =====
-- What one operation does to what a reader of an event stream gets.
use agent_program.Prelude.{
  ℕ, ◌≤◌, ◌<◌, ◌≡◌, refl, sym, ap, ◌∙◌, Bool, true, false, ◌&&◌, Option, some, List, [], ◌∷◌, ◌++◌,
  ◌==◌, ltb, arith, length, length-append, map, select, All, append_assoc, append-nil, Bool-cases,
  inl, inr,
}
use mathlib.Core.Path.{subst}
use agent_program.Events.Broker.{
  Envelope, Subscription, close, taken_from, is_value, offer, take_item,
}

-- the events of a workflow
abbrev pub events_for : ℕ → List Envelope → List Envelope
events_for w es = select (λ e. is_value e.workflow_id w) es

-- A queue keeps to its capacity. The subscription with the identifier is one to the workflow, and while
-- it is open, its reader has taken, or finds in its queue, exactly the events of the workflow in the
-- log, in their order.
pub record Sees (capacity id w : ℕ) (log : List Envelope) (s : Subscription) : Type 0 where
  pub bounded : length s.queue ≤ capacity
  pub complete :
      (s.id == id) ≡ true
      → (s.workflow_id ≡ w) × (s.is_open ≡ true → s.taken ++ s.queue ≡ map some (events_for w log))

pub All-map {κ} :
    {A : Type 0} (P Q : A → Type κ) (f : A → A)
    → ((x : A) → P x → Q (f x))
    → (xs : List A) → All P xs
    → All Q (map f xs)
All-map P Q f keeps [] h = tt
All-map P Q f keeps (x ∷ xs) h = (keeps x h.0, All-map P Q f keeps xs h.1)

module _ (capacity id w : ℕ) where
  pub close-Sees :
      (k : ℕ) (log : List Envelope) (s : Subscription)
      → Sees capacity id w log s
      → Sees capacity id w log (close k s)
  close-Sees k log s h = elim (Bool-cases (s.id == k)) [
    | inl own ↦
        rw own (record { bounded = h.bounded; complete = λ same. ((h.complete same).0, λ o. cc o) })
    | inr other ↦ rw other h
  ]

  taken_from-Sees :
      (log : List Envelope) (s : Subscription) (q : List (Option Envelope))
      → s.queue ≡ q
      → Sees capacity id w log s
      → Sees capacity id w log (taken_from s q)
  taken_from-Sees log s [] same h = h
  taken_from-Sees log s (item ∷ items) same h = record {
    bounded = omega (arith, h.bounded, ap length same);
    complete = λ mine.
        let (to, got) = h.complete mine in
        (
          to,
          λ o. append_assoc s.taken (item ∷ []) items ∙ ap (λ q. s.taken ++ q) (sym same) ∙ got o,
        );
  }

  pub take_item-Sees :
      (k : ℕ) (log : List Envelope) (s : Subscription)
      → Sees capacity id w log s
      → Sees capacity id w log (take_item k s)
  take_item-Sees k log s h = elim (Bool-cases (s.id == k)) [
    | inl own ↦ rw own (taken_from-Sees log s s.queue refl h)
    | inr other ↦ rw other h
  ]

map-append : (es fs : List Envelope) → map some (es ++ fs) ≡ map some es ++ map some fs
map-append [] fs = refl
map-append (e ∷ es) fs = ap (λ xs. some e ∷ xs) (map-append es fs)

events_for-append :
    (w : ℕ) (es fs : List Envelope) → events_for w (es ++ fs) ≡ events_for w es ++ events_for w fs
events_for-append w [] fs = refl
events_for-append w (e ∷ es) fs = elim (Bool-cases (is_value e.workflow_id w)) [
  | inl hit ↦ rw hit (ap (λ xs. e ∷ xs) (events_for-append w es fs))
  | inr miss ↦ rw miss (events_for-append w es fs)
]

both : (a b : Bool) → (a && b) ≡ true → b ≡ true
both true b h = h
both false b h = cc

neither : (a b : Bool) → (a && b) ≡ false → a ≡ true → b ≡ false
neither true b h o = h
neither false b h o = cc

module _ (capacity id w : ℕ) (positive : 1 ≤ capacity) where
  pub offer-Sees :
      (e : Envelope) (log : List Envelope) (s : Subscription)
      → Sees capacity id w log s
      → Sees capacity id w (log ++ e ∷ []) (offer capacity e s)
  offer-Sees e log s h = elim (Bool-cases (s.is_open && is_value e.workflow_id s.workflow_id)) [
    | inl wanted ↦ elim (Bool-cases (ltb (length s.queue) capacity)) [
      | inl room ↦
          let fits : length s.queue < capacity = ground (arith, room) in
          let value = both s.is_open (is_value e.workflow_id s.workflow_id) wanted in
          rw (wanted, room)
            (record {
              bounded = omega (arith, fits, length-append s.queue (some e ∷ []));
              complete = λ mine.
                  let (to, got) = h.complete mine in
                  let one : events_for w (e ∷ []) ≡ e ∷ [] =
                    subst (λ v. events_for v (e ∷ []) ≡ e ∷ []) to (rw value refl) in
                  (
                    to,
                    λ o.
                        sym (append_assoc s.taken s.queue (some e ∷ []))
                        ∙ ap (λ q. q ++ some e ∷ []) (got o)
                        ∙ sym (map-append (events_for w log) (e ∷ []))
                        ∙ ap (λ es. map some (events_for w log ++ es)) (sym one)
                        ∙ ap (map some) (sym (events_for-append w log (e ∷ []))),
                  );
            })
      | inr full ↦
          rw (wanted, full)
            (record {
              bounded = omega (arith, positive);
              complete = λ mine. ((h.complete mine).0, λ o. cc o);
            })
    ]
    | inr unwanted ↦ rw unwanted (record {
      bounded = h.bounded;
      complete = λ mine.
          let (to, got) = h.complete mine in
          (
            to,
            λ o.
                let value = neither s.is_open (is_value e.workflow_id s.workflow_id) unwanted o in
                let none_of : events_for w (e ∷ []) ≡ [] =
                  subst (λ v. events_for v (e ∷ []) ≡ []) to (rw value refl) in
                got o
                ∙ ap (map some) (
                    sym (append-nil (events_for w log))
                    ∙ ap (λ es. events_for w log ++ es) (sym none_of)
                    ∙ sym (events_for-append w log (e ∷ []))),
          );
    })
  ]
