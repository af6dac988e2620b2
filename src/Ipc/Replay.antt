-- ===== src/Ipc/Replay.antt =====
-- The replay window of the messages between processes
-- (backend/src/agent_platform/interfaces/ipc/replay.py). A sequence number is a natural number: the
-- code refuses what is no integer or is negative as it refuses 0. The digest of an identifier
-- (hashlib's SHA-256 of its UTF-8 encoding, which fails on a lone surrogate) is a parameter.
pub mod Digests
pub mod Windows
pub mod Reuse
mod Tests
use agent_program.Prelude.{
  ℕ, ◌+◌, Bool, true, false, ◌&&◌, ◌||◌, not, List, [], ◌∷◌, ◌++◌, ◌==◌, ltb, leb, if◌then◌else◌,
  length,
}
use agent_program.Errors.{
  Result, ok, err, ◌>>=◌, ◌>>◌, raise_if, replay_error, runtime_error, value_error,
}
use agent_program.Shared.Text.{Text}

abbrev pub min_capacity : ℕ
min_capacity = 64

abbrev pub max_capacity : ℕ
max_capacity = 65536

abbrev pub max_message_id_length : ℕ
max_message_id_length = 128

-- The deque of the digests, the oldest first, and the set of them, as its test of membership.
pub record ReplayWindow : Type 0 where
  pub capacity : ℕ
  pub last_sequence : ℕ
  pub message_digests : List ℕ
  pub message_digest_set : ℕ → Bool

-- `validate_replay_window_capacity`
unfoldable pub validate_replay_window_capacity : ℕ → Result ℕ
validate_replay_window_capacity value = do
  raise_if (not (leb min_capacity value && leb value max_capacity)) value_error
  ok value

-- the constructor with `__post_init__`
unfoldable pub new_window : ℕ → Result ReplayWindow
unfolding validate_replay_window_capacity
new_window capacity = do
  c ← validate_replay_window_capacity capacity
  ok (record {
    capacity = c;
    last_sequence = 0;
    message_digests = [];
    message_digest_set = λ _. false;
  })

abbrev pub add : ℕ → (ℕ → Bool) → ℕ → Bool
add d set x = x == d || set x

-- `set.remove`, which raises a KeyError where the element is missing
abbrev pub remove : ℕ → (ℕ → Bool) → Result (ℕ → Bool)
remove d set = if set d then ok (λ x. not (x == d) && set x) else err runtime_error

-- `_message_digest_set.remove(_message_digests.popleft())`
abbrev pub forget_oldest : List ℕ → (ℕ → Bool) → Result (List ℕ × (ℕ → Bool))
forget_oldest [] set = err runtime_error
forget_oldest (d ∷ ds) set = do rest ← remove d set; ok (ds, rest)

abbrev pub evict : ℕ → List ℕ → (ℕ → Bool) → Result (List ℕ × (ℕ → Bool))
evict capacity ds set = if ltb capacity (length ds) then forget_oldest ds set else ok (ds, set)

abbrev pub is_message_id : Text → Bool
is_message_id message_id =
    ltb 0 (length message_id) && leb (length message_id) max_message_id_length

-- `ReplayWindow.accept`
unfoldable pub accept : (Text → Result ℕ) → ℕ → Text → ReplayWindow → Result ReplayWindow
accept digest_of sequence message_id w = do
  raise_if (sequence == 0) replay_error
  raise_if (not (sequence == w.last_sequence + 1)) replay_error
  raise_if (not (is_message_id message_id)) replay_error
  digest ← digest_of message_id
  raise_if (w.message_digest_set digest) replay_error
  kept ← evict w.capacity (w.message_digests ++ digest ∷ []) (add digest w.message_digest_set)
  ok (record w { last_sequence = sequence; message_digests = kept.0; message_digest_set = kept.1 })

-- the messages of a connection, in the order in which they come
unfoldable pub accept_all : (Text → Result ℕ) → List (ℕ × Text) → ReplayWindow → Result ReplayWindow
accept_all digest_of [] w = ok w
accept_all digest_of (m ∷ ms) w = do next ← accept digest_of m.0 m.1 w; accept_all digest_of ms next
