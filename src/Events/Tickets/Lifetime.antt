-- ===== src/Events/Tickets/Lifetime.antt =====
-- Which tickets a store gives out, how often and for how long.
use agent_program.Prelude.{
  ℕ, ◌≡◌, refl, Bool, false, ◌||◌, not, none, some, List, [], ◌∷◌, ◌==◌, ltb, arith, length, select,
  get_row, All, length-select, get_row-select, select-KeysDistinct, Bool-cases, inl, inr,
}
use mathlib.Core.Path.{subst}
use agent_program.Shared.Text.{Text}
use agent_program.Events.Tickets.{
  Ticket, TicketStore, ticket_key, is_alive, prune, make_room, with_tickets, new_ticket, issue,
  consume, Use, issues, consumes, apply, run,
}
use agent_program.Events.Tickets.Room.{
  make_room-length, make_room-get_row, make_room-KeysDistinct, set_ticket-length,
  set_ticket-get_row, set_ticket-KeysDistinct, IsTickets,
}

module _ (digest_of : Text → ℕ) where
  apply-IsTickets :
      (u : Use digest_of) (store : TicketStore)
      → IsTickets store
      → IsTickets (apply digest_of u store)
  unfolding issue consume
  apply-IsTickets (issues token w now) store i =
      let room = make_room store.max_pending (prune now store.tickets) in
      let t = new_ticket digest_of store token w now in
      record {
        positive = i.positive;
        distinct = set_ticket-KeysDistinct t room (
            make_room-KeysDistinct store.max_pending (prune now store.tickets)
              (select-KeysDistinct (is_alive now) ticket_key store.tickets i.distinct));
        bounded = omega (
          arith,
          set_ticket-length t room,
          make_room-length store.max_pending (prune now store.tickets) i.positive,
        );
      }
  apply-IsTickets (consumes token now) store i =
      elim (Bool-cases (length token == 0 || ltb 256 (length token))) [
        | inl refused ↦ rw (refused, apply) i
        | inr taken ↦
            let other : Ticket → Bool = λ t. not (t.digest == digest_of token) in
            let live = prune now store.tickets in
            rw (taken, apply)
              (record {
                positive = i.positive;
                distinct =
                    select-KeysDistinct other ticket_key live
                      (select-KeysDistinct (is_alive now) ticket_key store.tickets i.distinct);
                bounded = omega (
                  arith,
                  i.bounded,
                  length-select (is_alive now) store.tickets,
                  length-select other live,
                );
              })
      ]

  -- A store that may hold at least one ticket, has one for each digest and no more than it may
  -- hold, stays so, however it is used.
  pub run-IsTickets :
      (us : List (Use digest_of)) (store : TicketStore)
      → IsTickets store
      → IsTickets (run digest_of us store)
  unfolding run
  run-IsTickets [] store i = i
  run-IsTickets (u ∷ us) store i =
      run-IsTickets us (apply digest_of u store) (apply-IsTickets u store i)

  -- The use issues no ticket with the digest.
  abbrev pub IssuesOther : ℕ → Use digest_of → Type 0
  IssuesOther k (issues token w now) = (digest_of token == k) ≡ false
  IssuesOther k (consumes token now) = Unit {0}

  select-gone :
      (k : ℕ) (ts : List Ticket)
      → get_row ticket_key k (select (λ t. not (t.digest == k)) ts) ≡ none
  select-gone k [] = refl
  select-gone k (t ∷ ts) = elim (Bool-cases (t.digest == k)) [
    | inl same ↦ rw same (select-gone k ts)
    | inr other ↦ rw (other, other) (select-gone k ts)
  ]

  apply-absent :
      (k : ℕ) (u : Use digest_of) (store : TicketStore)
      → IssuesOther k u
      → get_row ticket_key k store.tickets ≡ none
      → get_row ticket_key k (apply digest_of u store).tickets ≡ none
  unfolding issue consume
  apply-absent k (issues token w now) store other h =
      set_ticket-get_row k (new_ticket digest_of store token w now)
        (make_room store.max_pending (prune now store.tickets)) other
        (make_room-get_row store.max_pending k (prune now store.tickets)
          (get_row-select (is_alive now) ticket_key k store.tickets h))
  apply-absent k (consumes token now) store other h =
      elim (Bool-cases (length token == 0 || ltb 256 (length token))) [
        | inl refused ↦ rw (refused, apply) h
        | inr taken ↦
            rw (taken, apply)
              (get_row-select (λ t. not (t.digest == digest_of token)) ticket_key k
                (prune now store.tickets)
                (get_row-select (is_alive now) ticket_key k store.tickets h))
      ]

  run-absent :
      (k : ℕ) (us : List (Use digest_of)) (store : TicketStore)
      → All (IssuesOther k) us
      → get_row ticket_key k store.tickets ≡ none
      → get_row ticket_key k (run digest_of us store).tickets ≡ none
  unfolding run
  run-absent k [] store others h = h
  run-absent k (u ∷ us) store others h =
      run-absent k us (apply digest_of u store) others.1 (apply-absent k u store others.0 h)

  -- A token that has opened a stream opens none again, whatever uses come between, as long as none of
  -- them issues a ticket with the same digest.
  pub ticket_used_once :
      (token : Text) (now later w : ℕ) (us : List (Use digest_of)) (store store' : TicketStore)
      → consume digest_of token now store ≡ (some w, store')
      → All (IssuesOther (digest_of token)) us
      → (consume digest_of token later (run digest_of us store')).0 ≡ none
  unfolding consume
  ticket_used_once token now later w us store store' h others =
      elim (Bool-cases (length token == 0 || ltb 256 (length token))) [
        | inl refused ↦ cc (rw refused at h)
        | inr taken ↦
            let left : with_tickets store
                  (select (λ t. not (t.digest == digest_of token)) (prune now store.tickets))
                ≡ store' =
              cc (rw taken at h) in
            let gone : get_row ticket_key (digest_of token) store'.tickets ≡ none =
              subst (λ (s : TicketStore). get_row ticket_key (digest_of token) s.tickets ≡ none)
                left (select-gone (digest_of token) (prune now store.tickets)) in
            let absent = run-absent (digest_of token) us store' others gone in
            let pruned =
              get_row-select (is_alive later) ticket_key (digest_of token)
                (run digest_of us store').tickets absent in
            rw (taken, pruned)
      ]
