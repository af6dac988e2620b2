-- ===== src/Ipc/Replay/Reuse.antt =====
-- How long the replay window remembers a message.
use agent_program.Prelude.{
  ℕ, ◌+◌, ◌<◌, ◌≡◌, ◌≢◌, refl, sym, ap, ◌∙◌, true, List, [], ◌∷◌, ◌++◌, ◌==◌, length, mem, arith,
  Bool-cases, inl, inr, ==_refl, suc, append_assoc, length-append,
}
use mathlib.Core.Path.{subst}
use agent_program.Errors.{Result, ok, >>=-eq-ok}
use agent_program.Shared.Text.{Text}
use agent_program.Ipc.Replay.{ReplayWindow, accept, accept_all}
use agent_program.Ipc.Replay.Digests.{Kept}
use agent_program.Ipc.Replay.Windows.{IsWindow, accept-Accepted, accept_all-IsWindow}

module _ (digest_of : Text → Result ℕ) where
  -- `digest` is remembered, with `later` newer ones.
  abbrev Recent : ℕ → ℕ → List ℕ → Type 0
  Recent digest later ds =
      (xs : List ℕ) × (ys : List ℕ) × (ds ≡ xs ++ digest ∷ ys) × (length ys ≡ later)

  mem-Recent : (d later : ℕ) (ds : List ℕ) → Recent d later ds → mem d ds ≡ true
  mem-Recent d later ds (xs, ys, shape, _) = rw shape (within xs)
    where
      within : (xs : List ℕ) → mem d (xs ++ d ∷ ys) ≡ true
      within [] = rw (==_refl d)
      within (x ∷ xs) = elim (Bool-cases (d == x)) [
        | inl same ↦ rw same
        | inr other ↦ rw other (within xs)
      ]

  Recent-step :
      (d later e capacity : ℕ) (ds ds' : List ℕ)
      → suc later < capacity
      → Kept capacity (ds ++ e ∷ []) ds'
      → Recent d later ds
      → Recent d (suc later) ds'
  Recent-step d later e capacity ds ds' room k (xs, ys, shape, size) =
      let longer : length (ys ++ e ∷ []) ≡ suc later =
        omega (arith, length-append ys (e ∷ []), size) in
      let whole : ds ++ e ∷ [] ≡ xs ++ d ∷ (ys ++ e ∷ []) =
        ap (λ zs. zs ++ e ∷ []) shape ∙ append_assoc xs (d ∷ ys) (e ∷ []) in
      elim k.part [
        | inl all ↦ (xs, ys ++ e ∷ [], all ∙ whole, longer)
        | inr (oldest, front, full) ↦ evicted xs oldest (sym whole ∙ front) full longer
      ]
    where
      evicted :
          (xs : List ℕ) (oldest : ℕ)
          → xs ++ d ∷ (ys ++ e ∷ []) ≡ oldest ∷ ds'
          → length ds' ≡ capacity
          → length (ys ++ e ∷ []) ≡ suc later
          → Recent d (suc later) ds'
      evicted [] oldest front full longer =
          let same : ys ++ e ∷ [] ≡ ds' = cc front in
          let bad : ⊥ = omega (arith, ap length same, full, longer, room) in absurd bad
      evicted (x ∷ xs) oldest front full longer = (xs, ys ++ e ∷ [], cc front, longer)

  accept_all-Recent :
      (d later : ℕ) (ms : List (ℕ × Text)) (w w' : ReplayWindow)
      → IsWindow w
      → accept_all digest_of ms w ≡ ok w'
      → length ms + later < w.capacity
      → Recent d later w.message_digests
      → (n : ℕ) × Recent d n w'.message_digests
  unfolding accept_all
  accept_all-Recent d later [] w w' i h room r =
      let same : w ≡ w' = cc h in
      (later, subst (λ (v : ReplayWindow). Recent d later v.message_digests) same r)
  accept_all-Recent d later (m ∷ ms) w w' i h room r =
      let (next, first, others) = >>=-eq-ok (accept digest_of m.0 m.1 w) _ h in
      let (digest, _, a) = accept-Accepted digest_of m.0 m.1 w next i first in
      accept_all-Recent d (suc later) ms next w' a.window others
        (omega (arith, room, a.same_capacity))
        (Recent-step d later digest w.capacity w.message_digests next.message_digests
          (omega (arith, room)) a.kept r)

  -- In a window that is as it is to be, the identifier of an accepted message is refused, under
  -- whatever number, as long as fewer messages than the capacity were accepted after it.
  pub recent_id_refused :
      (s t : ℕ) (message_id : Text) (ms : List (ℕ × Text)) (w w₁ w₂ : ReplayWindow)
      → IsWindow w
      → accept digest_of s message_id w ≡ ok w₁
      → accept_all digest_of ms w₁ ≡ ok w₂
      → length ms < w.capacity
      → (w₃ : ReplayWindow) → accept digest_of t message_id w₂ ≢ ok w₃
  recent_id_refused s t message_id ms w w₁ w₂ i first others few w₃ again =
      let (d, p, a) = accept-Accepted digest_of s message_id w w₁ i first in
      let (later, r) =
        accept_all-Recent d 0 ms w₁ w₂ a.window others (omega (arith, few, a.same_capacity))
          (newest d w₁.message_digests a.kept) in
      let window = (accept_all-IsWindow digest_of ms w₁ w₂ a.window others).0 in
      let (d', p', _) = accept-Accepted digest_of t message_id w₂ w₃ window again in
      let same : d ≡ d' = cc (p.digested, p'.digested) in
      cc (mem-Recent d later w₂.message_digests r, p'.unseen, same)
    where
      newest :
          (d : ℕ) (ds' : List ℕ)
          → Kept w.capacity (w.message_digests ++ d ∷ []) ds'
          → Recent d 0 ds'
      newest d ds' k = elim k.part [
        | inl all ↦ (w.message_digests, [], all, refl)
        | inr (oldest, front, full) ↦ last w.message_digests oldest front full
      ]
        where
          last :
              (ds : List ℕ) (oldest : ℕ)
              → ds ++ d ∷ [] ≡ oldest ∷ ds'
              → length ds' ≡ w.capacity
              → Recent d 0 ds'
          last [] oldest front full =
              let none_left : [] ≡ ds' = cc front in
              let bad : ⊥ = omega (arith, ap length none_left, full, few) in absurd bad
          last (x ∷ xs) oldest front full = (xs, [], sym (cc front), refl)
