-- ===== src/Ipc/Replay/Windows.antt =====
-- The replay window as its messages come in.
use agent_program.Prelude.{
  ℕ, ◌+◌, ◌≤◌, ◌≡◌, refl, sym, ap, ◌∙◌, Bool, true, false, ◌&&◌, not, List, [], ◌∷◌, ◌++◌, ◌==◌,
  leb, length, mem, arith, ==_iff, ◌↔◌,
}
use mathlib.Core.Path.{subst}
use agent_program.Errors.{Result, ok, >>=-eq-ok, >>-eq-ok, raise_if, replay_error}
use agent_program.Shared.Text.{Text}
use agent_program.Ipc.Replay.{
  ReplayWindow, is_message_id, accept, accept_all, validate_replay_window_capacity, new_window,
}
use agent_program.Ipc.Replay.Digests.{IsDistinct, IsSetOf, Kept, evict_lem}

pub record IsWindow (w : ReplayWindow) : Type 0 where
  pub capacity_bounds : (64 ≤ w.capacity) × (w.capacity ≤ 65536)
  pub remembered : length w.message_digests ≤ w.capacity
  pub distinct : IsDistinct w.message_digests
  pub agrees : IsSetOf w.message_digest_set w.message_digests

-- A supported capacity gives a window that remembers nothing and waits for the message 1.
pub new_window-IsWindow :
    (capacity : ℕ)
    → 64 ≤ capacity
    → capacity ≤ 65536
    → (w : ReplayWindow) × (new_window capacity ≡ ok w) × IsWindow w × (w.last_sequence ≡ 0)
unfolding new_window validate_replay_window_capacity
new_window-IsWindow capacity low high =
    let supported : (leb 64 capacity && leb capacity 65536) ≡ true = ground arith in
    (
      record {
        capacity = capacity;
        last_sequence = 0;
        message_digests = [];
        message_digest_set = λ _. false;
      },
      rw supported,
      record {
        capacity_bounds = (low, high);
        remembered = omega arith;
        distinct = tt;
        agrees = λ x. refl;
      },
      refl,
    )

module _ (digest_of : Text → Result ℕ) where
  -- what the tests of `accept` ask for
  pub record Passes (sequence : ℕ) (message_id : Text) (digest : ℕ) (w : ReplayWindow)
      : Type 0 where
    pub next : sequence ≡ w.last_sequence + 1
    pub identifier : is_message_id message_id ≡ true
    pub digested : digest_of message_id ≡ ok digest
    pub unseen : mem digest w.message_digests ≡ false

  -- What an accepted message leaves.
  pub record Accepted (sequence digest : ℕ) (w w' : ReplayWindow) : Type 0 where
    pub window : IsWindow w'
    pub last : w'.last_sequence ≡ sequence
    pub same_capacity : w'.capacity ≡ w.capacity
    pub kept : Kept w.capacity (w.message_digests ++ digest ∷ []) w'.message_digests

  pub accepts :
      (sequence : ℕ) (message_id : Text) (digest : ℕ) (w : ReplayWindow)
      → IsWindow w
      → Passes sequence message_id digest w
      → (w' : ReplayWindow) × (accept digest_of sequence message_id w ≡ ok w')
        × Accepted sequence digest w w'
  unfolding accept
  accepts sequence message_id digest w i p =
      let positive : (sequence == 0) ≡ false = ground (arith, p.next) in
      let consecutive : (sequence == w.last_sequence + 1) ≡ true =
        (==_iff sequence (w.last_sequence + 1)).1 p.next in
      let new : w.message_digest_set digest ≡ false = i.agrees digest ∙ p.unseen in
      let (ds', set', evicted, kept, distinct, agrees) =
        evict_lem w.capacity digest w.message_digests w.message_digest_set i.remembered i.distinct
          i.agrees p.unseen in
      (
        record w { last_sequence = sequence; message_digests = ds'; message_digest_set = set' },
        rw (positive, consecutive, p.identifier, p.digested, new, evicted),
        record {
          window = record {
            capacity_bounds = i.capacity_bounds;
            remembered = kept.bounded;
            distinct = distinct;
            agrees = agrees;
          };
          last = refl;
          same_capacity = refl;
          kept = kept;
        },
      )

  pub passes :
      (sequence : ℕ) (message_id : Text) (w w' : ReplayWindow)
      → IsWindow w
      → accept digest_of sequence message_id w ≡ ok w'
      → (digest : ℕ) × Passes sequence message_id digest w
  unfolding accept
  passes sequence message_id w w' i h =
      let (_, h₁) = >>-eq-ok (raise_if (sequence == 0) replay_error) _ h in
      let (next, h₂) =
        >>-eq-ok (raise_if (not (sequence == w.last_sequence + 1)) replay_error) _ h₁ in
      let (identifier, h₃) =
        >>-eq-ok (raise_if (not (is_message_id message_id)) replay_error) _ h₂ in
      let (digest, digested, h₄) = >>=-eq-ok (digest_of message_id) _ h₃ in
      let (unseen, _) = >>-eq-ok (raise_if (w.message_digest_set digest) replay_error) _ h₄ in
      (
        digest,
        record {
          next = (==_iff sequence (w.last_sequence + 1)).0 (passed_not _ next);
          identifier = passed_not _ identifier;
          digested = digested;
          unseen = sym (i.agrees digest) ∙ passed _ unseen;
        },
      )
    where
      passed : (b : Bool) → raise_if b replay_error ≡ ok tt → b ≡ false
      passed true e = cc e
      passed false e = refl

      passed_not : (b : Bool) → raise_if (not b) replay_error ≡ ok tt → b ≡ true
      passed_not true e = refl
      passed_not false e = cc e

  -- On a window whose deque and set agree, a message is accepted exactly if its number is the next one,
  -- its identifier has 1 to 128 characters and a digest, and the digest is not remembered. No other
  -- error comes up.
  pub accept_iff :
      (sequence : ℕ) (message_id : Text) (w : ReplayWindow)
      → IsWindow w
      → ((w' : ReplayWindow) × (accept digest_of sequence message_id w ≡ ok w'))
        ↔ ((digest : ℕ) × Passes sequence message_id digest w)
  accept_iff sequence message_id w i = (
    λ r. passes sequence message_id w r.0 i r.1,
    λ r. let (w', answered, _) = accepts sequence message_id r.0 w i r.1 in (w', answered),
  )

  pub accept-Accepted :
      (sequence : ℕ) (message_id : Text) (w w' : ReplayWindow)
      → IsWindow w
      → accept digest_of sequence message_id w ≡ ok w'
      → (digest : ℕ) × Passes sequence message_id digest w × Accepted sequence digest w w'
  accept-Accepted sequence message_id w w' i h =
      let (digest, p) = passes sequence message_id w w' i h in
      let (w'', answered, a) = accepts sequence message_id digest w i p in
      let same : w'' ≡ w' = cc (answered, h) in
      (digest, p, subst (Accepted sequence digest w) same a)

  -- The numbers of the messages that follow `last`.
  abbrev pub IsConsecutive : ℕ → List (ℕ × Text) → Type 0
  IsConsecutive last [] = Unit {0}
  IsConsecutive last (m ∷ ms) = (m.0 ≡ last + 1) × IsConsecutive m.0 ms

  -- From a window that is as it is to be, messages that are all accepted are numbered one by one
  -- from the window's next number on; the window stays as it is to be, with the same capacity, and
  -- its last number grows by the number of the messages.
  pub accept_all-IsWindow :
      (ms : List (ℕ × Text)) (w w' : ReplayWindow)
      → IsWindow w
      → accept_all digest_of ms w ≡ ok w'
      → IsWindow w'
        × IsConsecutive w.last_sequence ms
        × (w'.last_sequence ≡ length ms + w.last_sequence)
        × (w'.capacity ≡ w.capacity)
  unfolding accept_all
  accept_all-IsWindow [] w w' i h =
      let same : w ≡ w' = cc h in
      (
        subst IsWindow same i,
        tt,
        ap (λ (v : ReplayWindow). v.last_sequence) (sym same) ∙ omega arith,
        ap (λ (v : ReplayWindow). v.capacity) (sym same),
      )
  accept_all-IsWindow (m ∷ ms) w w' i h =
      let (next, first, others) = >>=-eq-ok (accept digest_of m.0 m.1 w) _ h in
      let (digest, p, a) = accept-Accepted m.0 m.1 w next i first in
      let (window, consecutive, last, capacity) = accept_all-IsWindow ms next w' a.window others in
      (
        window,
        (p.next, subst (λ n. IsConsecutive n ms) a.last consecutive),
        omega (arith, last, a.last, p.next),
        capacity ∙ a.same_capacity,
      )
