-- ===== src/Ipc/Replay/Tests.antt =====
-- A window over three messages.
use agent_program.Prelude.{ℕ, ◌+◌, ◌≡◌, ◌≢◌, ◌↔◌, refl, false, [], ◌∷◌, arith, sum_of}
use agent_program.Errors.{Result, ok, err, replay_error}
use agent_program.Shared.Text.{Text}
use agent_program.Ipc.Replay.{ReplayWindow, add, accept, accept_all}
use agent_program.Ipc.Replay.Windows.{
  IsWindow, IsConsecutive, Passes, accept_iff, accept_all-IsWindow,
}
use agent_program.Ipc.Replay.Reuse.{recent_id_refused}

-- A digest that tells the identifiers of these tests apart.
abbrev digest_of : Text → Result ℕ
digest_of t = ok (sum_of (λ c. c) t)

abbrev empty : ReplayWindow
empty = record {
  capacity = 64;
  last_sequence = 0;
  message_digests = [];
  message_digest_set = λ _. false;
}

empty-IsWindow : IsWindow empty
empty-IsWindow = record {
  capacity_bounds = (omega arith, omega arith);
  remembered = omega arith;
  distinct = tt;
  agrees = λ x. refl;
}

-- The identifiers "a", "b" and "a" again.
repeated :
    accept_all digest_of ((1, 97 ∷ []) ∷ (2, 98 ∷ []) ∷ (3, 97 ∷ []) ∷ []) empty ≡ err replay_error
unfolding accept_all accept
repeated = refl

accept_iff_example :
    ((w' : ReplayWindow) × (accept digest_of 1 (97 ∷ []) empty ≡ ok w'))
    ↔ ((digest : ℕ) × Passes digest_of 1 (97 ∷ []) digest empty)
accept_iff_example = accept_iff digest_of 1 (97 ∷ []) empty empty-IsWindow

abbrev one : ReplayWindow
one = record empty {
  last_sequence = 1;
  message_digests = 97 ∷ [];
  message_digest_set = add 97 (λ _. false);
}

abbrev two : ReplayWindow
two = record empty {
  last_sequence = 2;
  message_digests = 97 ∷ 98 ∷ [];
  message_digest_set = add 98 (add 97 (λ _. false));
}

first_accepted : accept digest_of 1 (97 ∷ []) empty ≡ ok one
unfolding accept
first_accepted = refl

second_accepted : accept_all digest_of ((2, 98 ∷ []) ∷ []) one ≡ ok two
unfolding accept_all accept
second_accepted = refl

both_accepted : accept_all digest_of ((1, 97 ∷ []) ∷ (2, 98 ∷ []) ∷ []) empty ≡ ok two
unfolding accept_all accept
both_accepted = refl

accept_all-IsWindow_example :
    IsWindow two
    × IsConsecutive digest_of 0 ((1, 97 ∷ []) ∷ (2, 98 ∷ []) ∷ [])
    × (two.last_sequence ≡ 2 + 0)
    × (two.capacity ≡ 64)
accept_all-IsWindow_example =
    accept_all-IsWindow digest_of ((1, 97 ∷ []) ∷ (2, 98 ∷ []) ∷ []) empty two empty-IsWindow
      both_accepted

recent_id_refused_example : accept digest_of 3 (97 ∷ []) two ≢ ok two
recent_id_refused_example =
    recent_id_refused digest_of 1 3 (97 ∷ []) ((2, 98 ∷ []) ∷ []) empty one two empty-IsWindow
      first_accepted second_accepted (omega arith) two
