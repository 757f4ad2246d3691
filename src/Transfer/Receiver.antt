-- ===== src/Transfer/Receiver.antt =====
-- shared/delegate_protocol/chunked_transfer.py: `ChunkReceiver.receive_once`. The poll times and
-- the replies of XREAD are its input; a reply that is empty is an empty list of entries.
use delegate_implementation.Base.{
  ℕ, ℤ, pos, int_eq, Text, codes, text_eq, List, [], ◌∷◌, ◌++◌, Option, none, some, lookup, length,
  Bool, true, false, not, ◌&&◌, ◌||◌, if◌then◌else◌, key_error, value_error, Result, ok, or_raise,
  ◌>>=◌,
}
use delegate_implementation.Platform.{Platform, Bytes, Fields}
use delegate_implementation.Transfer.Sender.{sha256_bytes}

-- The local variables of `receive_once` that a message changes.
pub record Rx : Type 0 where
  pub transfer_id : Option Text
  pub total_size : Option ℤ
  pub checksum_expected : Option Text
  pub started : Bool
  pub buf : Bytes
  pub seen_seq : List ℤ

abbrev pub initial : Rx
initial = record {
  transfer_id = none;
  total_size = none;
  checksum_expected = none;
  started = false;
  buf = [];
  seen_seq = [];
}

-- The reasons of a `TransferFailed`.
pub data Failure : Type 0 where
  timeout size_mismatch checksum_mismatch : Failure

-- What one message does to the loop. `next rx true` moves the deadline.
pub data Reaction : Type 0 where
  next : Rx → Bool → Reaction
  failed : Failure → Reaction
  received : Bytes → Option Text → Reaction

unfoldable pub seen : ℤ → List ℤ → Bool
unfolding int_eq
seen n [] = false
seen n (m ∷ ms) = int_eq n m || seen n ms

-- `==` between values that may be `None`.
unfoldable pub same_text : Option Text → Option Text → Bool
same_text none none = true
same_text none (some t) = false
same_text (some s) none = false
same_text (some s) (some t) = text_eq s t

unfoldable pub is_type : Fields → Text → Bool
unfolding same_text
is_type fields name = same_text (lookup "type" fields) (some name)

unfoldable pub same_size : ℕ → Option ℤ → Bool
same_size n none = false
same_size n (some z) = int_eq (pos n) z

module _ (p : Platform) where
  unfoldable pub on_start : Fields → Result Reaction
  on_start fields = do
    transfer_id ← or_raise (lookup "transfer_id" fields) key_error
    size_text ← or_raise (lookup "total_size" fields) key_error
    total_size ← or_raise (p.int_str size_text) value_error
    checksum ← or_raise (lookup "checksum" fields) key_error
    ok (
        next
          (record {
            transfer_id = some transfer_id;
            total_size = some total_size;
            checksum_expected = some checksum;
            started = true;
            buf = [];
            seen_seq = [];
          })
          true)

  unfoldable pub on_chunk : Rx → Fields → Result Reaction
  on_chunk rx fields = do
    seq_text ← or_raise (lookup "sequence_no" fields) key_error
    seq ← or_raise (p.int_str seq_text) value_error
    if seen seq rx.seen_seq then ok (next rx false) else do
      payload ← or_raise (lookup "chunk_b64" fields) key_error
      chunk ← or_raise (p.b64decode payload) value_error
      ok (next (record rx { buf = rx.buf ++ chunk; seen_seq = seq ∷ rx.seen_seq }) true)

  unfoldable pub on_end : Rx → Reaction
  on_end rx =
      if not (same_size (length rx.buf) rx.total_size)
      then failed size_mismatch
      else if not (same_text (some (sha256_bytes p rx.buf)) rx.checksum_expected)
      then failed checksum_mismatch
      else received rx.buf rx.transfer_id

  -- The test that guards a chunk and the end: the message belongs to the transfer in progress.
  unfoldable pub belongs : Rx → Fields → Bool
  unfolding same_text
  belongs rx fields = rx.started && same_text (lookup "transfer_id" fields) rx.transfer_id

  -- The branches on the message type.
  unfoldable pub receive_message : Rx → Fields → Result Reaction
  receive_message rx fields =
      if is_type fields (codes "DATA_START")
      then on_start fields
      else if is_type fields (codes "DATA_CHUNK") && belongs rx fields
      then on_chunk rx fields
      else if is_type fields (codes "DATA_END") && belongs rx fields
      then ok (on_end rx)
      else ok (next rx false)
