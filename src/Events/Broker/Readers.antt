-- ===== src/Events/Broker/Readers.antt =====
-- What a reader of an event stream gets, from its subscription on.
use agent_program.Prelude.{
  ℕ, ◌≤◌, ◌≡◌, refl, ◌∙◌, true, false, ◌&&◌, Option, List, [], ◌∷◌, ◌++◌, ◌==◌, ltb, arith, length,
  map, mem, any, ==_refl, All, All-append, All-imp, append-nil, Bool-cases, inl, inr,
}
use agent_program.Events.Broker.{
  Envelope, Subscription, Broker, new_subscription, subscribe, close, unsubscribe, taken_from,
  is_value, offer, publish, take_item, read_item, Use, subscribes, unsubscribes, reads, publishes,
  apply, accepts, run, log_of,
}
use agent_program.Events.Broker.Gaps.{Sees, All-map, close-Sees, take_item-Sees, offer-Sees}

-- The use draws another identifier.
abbrev pub SubscribesOther : ℕ → Use → Type 0
SubscribesOther id (subscribes k w) = (k == id) ≡ false
SubscribesOther id _ = Unit {0}

-- What a broker keeps of the subscription: all of its subscriptions are as they are to be, and the
-- one with the identifier is there.
pub record Serves (id w : ℕ) (log : List Envelope) (b : Broker) : Type 0 where
  pub positive : 1 ≤ b.queue_capacity
  pub sees : All (Sees b.queue_capacity id w log) b.subscriptions
  pub there : any (λ s. s.id == id) b.subscriptions ≡ true

any-map :
    (id : ℕ) (f : Subscription → Subscription)
    → ((s : Subscription) → (f s).id ≡ s.id)
    → (ss : List Subscription) → any (λ s. s.id == id) (map f ss) ≡ any (λ s. s.id == id) ss
any-map id f same [] = refl
any-map id f same (s ∷ ss) = rw (same s, any-map id f same ss)

any-append :
    (id : ℕ) (ss : List Subscription) (s : Subscription)
    → any (λ x. x.id == id) ss ≡ true
    → any (λ x. x.id == id) (ss ++ s ∷ []) ≡ true
any-append id [] s h = cc
any-append id (x ∷ ss) s h = elim (Bool-cases (x.id == id)) [
  | inl here ↦ rw here
  | inr other ↦ rw other (any-append id ss s (rw other at h))
]

any-last :
    (id w : ℕ) (ss : List Subscription)
    → any (λ x. x.id == id) (ss ++ new_subscription id w ∷ []) ≡ true
any-last id w [] = rw (==_refl id)
any-last id w (x ∷ ss) = elim (Bool-cases (x.id == id)) [
  | inl here ↦ rw here
  | inr other ↦ rw other (any-last id w ss)
]

close_id : (k : ℕ) (s : Subscription) → (close k s).id ≡ s.id
close_id k s = elim (Bool-cases (s.id == k)) [ inl own ↦ rw own | inr other ↦ rw other ]

taken_from_id : (s : Subscription) (q : List (Option Envelope)) → (taken_from s q).id ≡ s.id
taken_from_id s [] = refl
taken_from_id s (item ∷ items) = refl

take_item_id : (k : ℕ) (s : Subscription) → (take_item k s).id ≡ s.id
take_item_id k s = elim (Bool-cases (s.id == k)) [
  | inl own ↦ rw own (taken_from_id s s.queue)
  | inr other ↦ rw other
]

offer_id : (capacity : ℕ) (e : Envelope) (s : Subscription) → (offer capacity e s).id ≡ s.id
offer_id capacity e s = elim (Bool-cases (s.is_open && is_value e.workflow_id s.workflow_id)) [
  | inl wanted ↦ elim (Bool-cases (ltb (length s.queue) capacity)) [
    | inl room ↦ rw (wanted, room)
    | inr full ↦ rw (wanted, full)
  ]
  | inr unwanted ↦ rw unwanted
]

apply-Serves :
    (id w : ℕ) (u : Use) (b : Broker) (log : List Envelope)
    → SubscribesOther id u
    → Serves id w log b
    → Serves id w (log ++ accepts u b) (apply u b)
unfolding subscribe unsubscribe read_item publish
apply-Serves id w (subscribes k v) b log other h = rw (append-nil log) (record {
  positive = h.positive;
  sees =
      All-append (Sees b.queue_capacity id w log) (map (close k) b.subscriptions)
        (new_subscription k v ∷ [])
        (All-map (Sees b.queue_capacity id w log) (Sees b.queue_capacity id w log) (close k)
          (close-Sees b.queue_capacity id w k log) b.subscriptions h.sees)
        (record { bounded = omega arith; complete = λ mine. cc (mine, other) }, tt);
  there =
      any-append id (map (close k) b.subscriptions) (new_subscription k v)
        (any-map id (close k) (close_id k) b.subscriptions ∙ h.there);
})
apply-Serves id w (unsubscribes k) b log other h = rw (append-nil log) (record {
  positive = h.positive;
  sees =
      All-map (Sees b.queue_capacity id w log) (Sees b.queue_capacity id w log) (close k)
        (close-Sees b.queue_capacity id w k log) b.subscriptions h.sees;
  there = any-map id (close k) (close_id k) b.subscriptions ∙ h.there;
})
apply-Serves id w (reads k) b log other h = rw (append-nil log) (record {
  positive = h.positive;
  sees =
      All-map (Sees b.queue_capacity id w log) (Sees b.queue_capacity id w log) (take_item k)
        (take_item-Sees b.queue_capacity id w k log) b.subscriptions h.sees;
  there = any-map id (take_item k) (take_item_id k) b.subscriptions ∙ h.there;
})
apply-Serves id w (publishes e event_id) b log other h =
    elim (Bool-cases (is_value e.event_id event_id)) [
      | inr wrong ↦ rw (wrong, apply, append-nil log) h
      | inl right ↦ elim (Bool-cases (mem event_id b.published)) [
        | inl again ↦ rw (right, again, apply, append-nil log) h
        | inr new ↦
            rw (right, new, apply)
              (record {
                positive = h.positive;
                sees =
                    All-map (Sees b.queue_capacity id w log)
                      (Sees b.queue_capacity id w (log ++ e ∷ [])) (offer b.queue_capacity e)
                      (offer-Sees b.queue_capacity id w h.positive e log) b.subscriptions h.sees;
                there =
                    any-map id (offer b.queue_capacity e) (offer_id b.queue_capacity e)
                      b.subscriptions
                    ∙ h.there;
              })
      ]
    ]

run-Serves :
    (id w : ℕ) (us : List Use) (b : Broker) (log : List Envelope)
    → All (SubscribesOther id) us
    → Serves id w log b
    → Serves id w (log_of us b log) (run us b)
unfolding run log_of
run-Serves id w [] b log others h = h
run-Serves id w (u ∷ us) b log others h =
    run-Serves id w us (apply u b) (log ++ accepts u b) others.1
      (apply-Serves id w u b log others.0 h)

-- From the moment of a subscription under an identifier that no other has, where no queue is longer than
-- the capacity, and however the broker is then used without this identifier being drawn again: the
-- subscription is there, no queue is longer than the capacity, and while the subscription is open, its
-- reader has taken, or finds in its queue, exactly the events of its workflow whose publication the
-- broker has accepted since, in their order.
pub subscribe-Serves :
    (id w : ℕ) (us : List Use) (b : Broker)
    → 1 ≤ b.queue_capacity
    → All (λ s. ((s.id == id) ≡ false) × (length s.queue ≤ b.queue_capacity)) b.subscriptions
    → All (SubscribesOther id) us
    → Serves id w (log_of us (subscribe id w b) []) (run us (subscribe id w b))
unfolding subscribe
subscribe-Serves id w us b positive olds others =
    run-Serves id w us (subscribe id w b) [] others (record {
      positive = positive;
      sees =
          All-append (Sees b.queue_capacity id w []) (map (close id) b.subscriptions)
            (new_subscription id w ∷ [])
            (All-map (Sees b.queue_capacity id w []) (Sees b.queue_capacity id w []) (close id)
              (close-Sees b.queue_capacity id w id []) b.subscriptions
              (All-imp (λ s. ((s.id == id) ≡ false) × (length s.queue ≤ b.queue_capacity))
                (Sees b.queue_capacity id w [])
                (λ s old. record { bounded = old.1; complete = λ mine. cc (mine, old.0) })
                b.subscriptions olds))
            (record { bounded = omega arith; complete = λ mine. (refl, λ o. refl) }, tt);
      there = any-last id w (map (close id) b.subscriptions);
    })
