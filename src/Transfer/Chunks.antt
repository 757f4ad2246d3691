-- ===== src/Transfer/Chunks.antt =====
-- The receiver against the sender, message by message: what the published messages of one transfer
-- do to the receiver's variables.
use delegate_implementation.Base.{
  ℕ, ℤ, pos, int_eq_iff, Text, text_eq, text_eq_refl, List, [], ◌∷◌, ◌++◌, some, lookup-insert,
  length, true, false, ◌≡◌, refl, ok,
}
use delegate_implementation.Platform.{Platform, Bytes, Fields}
use delegate_implementation.Transfer.Sender.{sha256_bytes, start_fields, chunk_fields, end_fields}
use delegate_implementation.Transfer.Receiver.{
  Rx, next, received, seen, is_type, same_size, on_start, on_chunk, on_end, belongs,
  receive_message,
}

module _ (p : Platform) (base : Fields) (tid : Text) where
  -- The receiver's variables after the DATA_START of `content` and some of its chunks.
  abbrev pub in_transfer : Bytes → Bytes → List ℤ → Rx
  in_transfer content buf seen_seq = record {
    transfer_id = some tid;
    total_size = some (pos (length content));
    checksum_expected = some (sha256_bytes p content);
    started = true;
    buf = buf;
    seen_seq = seen_seq;
  }

  pub receive-start :
      (size : ℕ) (content : Bytes) (rx : Rx)
      → receive_message p rx (start_fields p size content base tid)
        ≡ ok (next (in_transfer content [] []) true)
  unfolding receive_message start_fields is_type on_start text_eq
  receive-start size content rx = simp (lookup-insert, p.int_str-str_int)

  pub receive-chunk :
      (content buf chunk : Bytes) (seen_seq : List ℤ) (seq : ℕ)
      → seen (pos seq) seen_seq ≡ false
      → receive_message p (in_transfer content buf seen_seq) (chunk_fields p chunk seq base tid)
        ≡ ok (next (in_transfer content (buf ++ chunk) (pos seq ∷ seen_seq)) true)
  unfolding receive_message chunk_fields is_type belongs on_chunk text_eq
  receive-chunk content buf chunk seen_seq seq fresh =
      simp (lookup-insert, p.int_str-str_int, p.b64decode-b64encode, text_eq_refl, fresh)

  -- The same chunk again: nothing is appended, and the deadline stays.
  pub receive-chunk_again :
      (content buf chunk : Bytes) (seen_seq : List ℤ) (seq : ℕ)
      → seen (pos seq) seen_seq ≡ true
      → receive_message p (in_transfer content buf seen_seq) (chunk_fields p chunk seq base tid)
        ≡ ok (next (in_transfer content buf seen_seq) false)
  unfolding receive_message chunk_fields is_type belongs on_chunk text_eq
  receive-chunk_again content buf chunk seen_seq seq again =
      simp (lookup-insert, p.int_str-str_int, text_eq_refl, again)

  pub receive-end :
      (content : Bytes) (seen_seq : List ℤ) (chunks : ℕ)
      → receive_message p (in_transfer content content seen_seq) (end_fields p chunks base tid)
        ≡ ok (received content (some tid))
  unfolding receive_message end_fields is_type belongs on_end text_eq same_size
  receive-end content seen_seq chunks =
      simp (lookup-insert, text_eq_refl, (int_eq_iff (pos (length content)) _).1 refl)
