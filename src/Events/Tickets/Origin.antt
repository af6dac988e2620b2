-- ===== src/Events/Tickets/Origin.antt =====
-- Where a ticket that opens a stream comes from.
use agent_program.Prelude.{
  ℕ, ◌+◌, ◌<◌, ◌≡◌, ◌⊎◌, refl, sym, Bool, true, ◌||◌, not, Option, none, some, List, [], ◌∷◌, ◌==◌,
  ltb, leb, arith, length, select, get_row, All, All-imp, All-select, All-get_row, key-get_row,
  Bool-cases, inl, inr,
}
use mathlib.Core.Path.{subst}
use agent_program.Shared.Text.{Text}
use agent_program.Events.Tickets.{
  Ticket, TicketStore, ticket_key, is_alive, prune, make_room, new_ticket, issue, valid_until,
  consume, Use, issues, consumes, run,
}
use agent_program.Events.Tickets.Room.{make_room-All, set_ticket-All}

module _ (digest_of : Text → ℕ) where
  -- The ticket is one that the uses issue in a store with this lifetime.
  abbrev pub IssuedIn : ℕ → List (Use digest_of) → Ticket → Type 0
  IssuedIn ttl [] t = ⊥
  IssuedIn ttl (issues token w now ∷ us) t =
      (record { digest = digest_of token; workflow_id = w; expires_at = now + ttl } ≡ t)
      ⊎ IssuedIn ttl us t
  IssuedIn ttl (consumes token now ∷ us) t = IssuedIn ttl us t

  prune-All {κ} :
      (P : Ticket → Type κ) (test : Ticket → Bool) (ts : List Ticket)
      → All P ts
      → All P (select test ts)
  prune-All P test ts h =
      All-imp (λ t. P t × (test t ≡ true)) P (λ t p. p.0) (select test ts) (All-select test P ts h)

  consume-All :
      (P : Ticket → Type 0) (token : Text) (now : ℕ) (store : TicketStore)
      → All P store.tickets
      → All P (consume digest_of token now store).1.tickets
        × ((consume digest_of token now store).1.ttl ≡ store.ttl)
  unfolding consume
  consume-All P token now store h =
      elim (Bool-cases (length token == 0 || ltb 256 (length token))) [
        | inl refused ↦ rw refused (h, refl)
        | inr taken ↦ rw taken (
          prune-All P (λ t. not (t.digest == digest_of token)) (prune now store.tickets)
              (prune-All P (is_alive now) store.tickets h),
          refl,
        )
      ]

  run-All :
      (P : Ticket → Type 0) (us : List (Use digest_of)) (store : TicketStore)
      → All P store.tickets
      → ((t : Ticket) → IssuedIn store.ttl us t → P t)
      → All P (run digest_of us store).tickets
  unfolding run issue
  run-All P [] store h from = h
  run-All P (issues token w now ∷ us) store h from =
      run-All P us (issue digest_of token w now store)
        (set_ticket-All P (new_ticket digest_of store token w now)
          (make_room store.max_pending (prune now store.tickets))
          (make_room-All P store.max_pending (prune now store.tickets)
            (prune-All P (is_alive now) store.tickets h))
          (from (new_ticket digest_of store token w now) (inl refl)))
        (λ t later. from t (inr later))
  run-All P (consumes token now ∷ us) store h from =
      let (kept, same) = consume-All P token now store h in
      run-All P us (consume digest_of token now store).1 kept
        (λ t later. from t (subst (λ n. IssuedIn n us t) same later))

  opened :
      (now w : ℕ) (o : Option Ticket)
      → valid_until now o ≡ some w
      → (t : Ticket) × (o ≡ some t) × (t.workflow_id ≡ w) × (now < t.expires_at)
  opened now w none h = cc
  opened now w (some t) h = elim (Bool-cases (leb t.expires_at now)) [
    | inl over ↦ cc (rw over at h)
    | inr valid ↦ (t, refl, cc (rw valid at h), ground (arith, valid))
  ]

  -- A token that opens a workflow's stream has the digest of a ticket that was issued for this
  -- workflow since the store was empty, and whose time is not over.
  pub ticket_was_issued :
      (token : Text) (now w : ℕ) (us : List (Use digest_of)) (empty store' : TicketStore)
      → empty.tickets ≡ []
      → consume digest_of token now (run digest_of us empty) ≡ (some w, store')
      → (t : Ticket) × IssuedIn empty.ttl us t
        × (t.digest ≡ digest_of token)
        × (t.workflow_id ≡ w)
        × (now < t.expires_at)
  unfolding consume
  ticket_was_issued token now w us empty store' none_yet h =
      let store = run digest_of us empty in
      let all : All (IssuedIn empty.ttl us) store.tickets =
        run-All (IssuedIn empty.ttl us) us empty
          (subst (All (IssuedIn empty.ttl us)) (sym none_yet) tt) (λ t m. m) in
      elim (Bool-cases (length token == 0 || ltb 256 (length token))) [
        | inl refused ↦ cc (rw refused at h)
        | inr taken ↦
            let answer : valid_until now
                  (get_row ticket_key (digest_of token) (prune now store.tickets))
                ≡ some w =
              cc (rw taken at h) in
            let (t, found, for_w, alive) =
              opened now w (get_row ticket_key (digest_of token) (prune now store.tickets))
                answer in
            (
              t,
              All-get_row ticket_key (IssuedIn empty.ttl us) (digest_of token) t
                  (prune now store.tickets)
                  (prune-All (IssuedIn empty.ttl us) (is_alive now) store.tickets all) found,
              key-get_row ticket_key (digest_of token) t (prune now store.tickets) found,
              for_w,
              alive,
            )
      ]
