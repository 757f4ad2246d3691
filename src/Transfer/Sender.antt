-- ===== src/Transfer/Sender.antt =====
-- shared/delegate_protocol/chunked_transfer.py: `sha256_bytes` and `ChunkSender`. What a call
-- publishes is the list of its XADD calls, in order.
use delegate_implementation.Base.{
  ℕ, zero, suc, ◌+◌, ◌-◌, ◌*◌, Text, codes, List, [], ◌∷◌, ◌++◌, Option, none, some, insert, take,
  drop, length, ltb, ◌==◌, if◌then◌else◌,
}
use delegate_implementation.Platform.{Platform, Bytes, Fields}

-- One `r.xadd(stream_key, fields)`.
abbrev pub Xadd : Type 0
Xadd = Text × Fields

-- 256 KiB
abbrev pub chunk_size : ℕ
chunk_size = 256 * 1024

-- `range(lo, hi, step)` for a positive step; the fuel bounds the number of its items.
unfoldable pub range_from : ℕ → ℕ → ℕ → ℕ → List ℕ
range_from zero lo hi step = []
range_from (suc fuel) lo hi step =
    let rest = range_from fuel (lo + step) hi step in if ltb lo hi then lo ∷ rest else []

-- `content[lo: hi]`
abbrev pub slice {ℓ} : {A : Type ℓ} → List A → ℕ → ℕ → List A
slice content lo hi = take (hi - lo) (drop lo content)

pub record Sent : Type 0 where
  pub commands : List Xadd
  -- `none` where the call raises: `range` does for a step of 0.
  pub outcome : Option (Text × Text × ℕ)

module _ (p : Platform) where
  unfoldable pub sha256_bytes : Bytes → Text
  sha256_bytes content = codes "sha256:" ++ p.sha256_hex content

  unfoldable pub start_fields : ℕ → Bytes → Fields → Text → Fields
  start_fields size content base_fields transfer_id = insert "checksum" (sha256_bytes content) (
      insert "chunk_size" (p.str_int size) (
        insert "total_size" (p.str_int (length content))
          (insert "transfer_id" transfer_id (insert "type" (codes "DATA_START") base_fields))))

  unfoldable pub chunk_fields : Bytes → ℕ → Fields → Text → Fields
  chunk_fields chunk seq base_fields transfer_id = insert "chunk_b64" (p.b64encode chunk) (
      insert "sequence_no" (p.str_int seq)
        (insert "transfer_id" transfer_id (insert "type" (codes "DATA_CHUNK") base_fields)))

  unfoldable pub end_fields : ℕ → Fields → Text → Fields
  end_fields seq base_fields transfer_id =
      insert "total_chunks" (p.str_int seq)
        (insert "transfer_id" transfer_id (insert "type" (codes "DATA_END") base_fields))

  module _ (size : ℕ) (content : Bytes) (base_fields : Fields) (transfer_id : Text) where
    -- The loop over the offsets and the DATA_END after it; `seq` counts the chunks.
    unfoldable pub send_chunks : List ℕ → ℕ → List Fields
    send_chunks [] seq = end_fields seq base_fields transfer_id ∷ []
    send_chunks (offset ∷ offsets) seq =
        chunk_fields (slice content offset (offset + size)) seq base_fields transfer_id
        ∷ send_chunks offsets (seq + 1)

    -- The fields of every message, in the order in which they are published.
    unfoldable pub transfer_messages : List Fields
    transfer_messages =
        start_fields size content base_fields transfer_id
        ∷ send_chunks (range_from (length content) 0 (length content) size) 0

  unfoldable pub on_stream : Text → List Fields → List Xadd
  on_stream key [] = []
  on_stream key (fields ∷ rest) = (key, fields) ∷ on_stream key rest

  -- `uuid.uuid4()` is the argument `transfer_id`.
  unfoldable pub send_bytes : ℕ → Text → Bytes → Fields → Text → Sent
  send_bytes size stream_key content base_fields transfer_id =
      if size == 0
      then record {
        commands = (stream_key, start_fields size content base_fields transfer_id) ∷ [];
        outcome = none;
      }
      else record {
        commands = on_stream stream_key (transfer_messages size content base_fields transfer_id);
        outcome = some (transfer_id, sha256_bytes content, length content);
      }
