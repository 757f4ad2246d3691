-- ===== src/Transfer/RoundTrip.antt =====
-- A whole transfer: what the sender publishes, the receiver's loop returns, however XREAD cuts the
-- entries into replies.
use delegate_implementation.Base.{
  ℕ, zero, suc, ◌+◌, ◌-◌, ◌≤◌, ◌<◌, ℤ, pos, Text, List, [], ◌∷◌, ◌++◌, map, some, ltb, Bool-cases,
  length, take, take-all, take-add, false, ◌≡◌, refl, arith, inl, inr,
}
use delegate_implementation.Platform.{Platform, Bytes, Fields}
use delegate_implementation.Transfer.Sender.{
  range_from, slice, start_fields, chunk_fields, end_fields, send_chunks, transfer_messages,
}
use delegate_implementation.Transfer.Receiver.{seen}
use delegate_implementation.Transfer.Loop.{
  Entry, Loop, waiting, completed, handle_entry, handle_entries,
}
use delegate_implementation.Transfer.Chunks.{in_transfer, receive-start, receive-chunk, receive-end}

-- The fields of the entries, in order.
abbrev pub contents : List Entry → List Fields
contents = map (λ e. e.fields)

-- The id of the last entry, or the one before all of them.
abbrev pub last_of : Text → List Entry → Text
last_of id [] = id
last_of id (e ∷ es) = last_of e.id es

pub slice-take :
    (lo size : ℕ) (xs : Bytes) → take lo xs ++ slice xs lo (lo + size) ≡ take (lo + size) xs
slice-take lo size xs = let n : lo + size - lo ≡ size = omega arith in rw (n, take-add lo size xs)

-- No sequence number from `seq` on has been seen.
abbrev pub Fresh : ℕ → List ℤ → Type 0
Fresh seq seen_seq = (k : ℕ) → seq ≤ k → seen (pos k) seen_seq ≡ false

pub Fresh-suc :
    (seq : ℕ) (seen_seq : List ℤ) → Fresh seq seen_seq → Fresh (seq + 1) (pos seq ∷ seen_seq)
unfolding seen
Fresh-suc seq seen_seq h k le = ground (arith, h k)

module _ (p : Platform) (wait_timeout size : ℕ) (content : Bytes) (base : Fields) (tid : Text) where
  -- The loop in the middle of the transfer, with the bytes before the offset `lo` received.
  abbrev at_offset : ℕ → List ℤ → Text → ℕ → Loop
  at_offset lo seen_seq last_id deadline = record {
    rx = in_transfer p base tid content (take lo content) seen_seq;
    last_id = last_id;
    deadline = deadline;
  }

  step-chunk :
      (lo seq : ℕ) (seen_seq : List ℤ) (last_id : Text) (deadline : ℕ) (e : Entry)
      → seen (pos seq) seen_seq ≡ false
      → e.fields ≡ chunk_fields p (slice content lo (lo + size)) seq base tid
      → handle_entry p wait_timeout (at_offset lo seen_seq last_id deadline) e
        ≡ waiting (at_offset (lo + size) (pos seq ∷ seen_seq) e.id (e.at + wait_timeout))
  unfolding handle_entry
  step-chunk lo seq seen_seq last_id deadline e fresh h = rw (h, receive-chunk, fresh, slice-take)

  receive-last :
      (lo seq : ℕ) (seen_seq : List ℤ) (last_id : Text) (deadline : ℕ) (es : List Entry)
      → length content ≤ lo
      → contents es ≡ end_fields p seq base tid ∷ []
      → handle_entries p wait_timeout es (at_offset lo seen_seq last_id deadline)
        ≡ completed content (last_of last_id es) (some tid)
  unfolding handle_entries handle_entry
  receive-last lo seq seen_seq last_id deadline [] all h = cc
  receive-last lo seq seen_seq last_id deadline (e ∷ []) all h =
      let same : e.fields ≡ end_fields p seq base tid = cc in
      rw (same, take-all content lo all, receive-end)
  receive-last lo seq seen_seq last_id deadline (e ∷ f ∷ es) all h = cc

  -- The rest of a transfer, from the chunk at offset `lo` on.
  receive-chunks :
      (fuel lo seq : ℕ) (seen_seq : List ℤ) (last_id : Text) (deadline : ℕ) (es : List Entry)
      → 0 < size
      → length content ≤ lo + fuel
      → Fresh seq seen_seq
      → contents es
        ≡ send_chunks p size content base tid (range_from fuel lo (length content) size) seq
      → handle_entries p wait_timeout es (at_offset lo seen_seq last_id deadline)
        ≡ completed content (last_of last_id es) (some tid)
  unfolding send_chunks range_from handle_entries
  receive-chunks zero lo seq seen_seq last_id deadline es pos_size long fresh h =
      receive-last lo seq seen_seq last_id deadline es (omega arith) h
  receive-chunks (suc fuel) lo seq seen_seq last_id deadline [] pos_size long fresh h =
      elim (Bool-cases (ltb lo (length content))) [
        | inl more ↦ absurd (ground arith)
        | inr done ↦ absurd (ground arith)
      ]
  receive-chunks (suc fuel) lo seq seen_seq last_id deadline (e ∷ es) pos_size long fresh h =
      elim (Bool-cases (ltb lo (length content))) [
        | inl more ↦
            let h' = rw more at h in
            rw (step-chunk lo seq seen_seq last_id deadline e (fresh seq (omega arith)) (cc)) (
              receive-chunks fuel (lo + size) (seq + 1) (pos seq ∷ seen_seq) e.id
                (e.at + wait_timeout) es pos_size (omega arith) (Fresh-suc seq seen_seq fresh) (cc))
        | inr done ↦
            receive-last lo seq seen_seq last_id deadline (e ∷ es) (ground arith) (rw done at h)
      ]

  -- From whatever state the loop is in, the messages of one transfer make it return the content.
  pub handle_entries-transfer :
      (s : Loop) (es : List Entry)
      → 0 < size
      → contents es ≡ transfer_messages p size content base tid
      → handle_entries p wait_timeout es s ≡ completed content (last_of s.last_id es) (some tid)
  unfolding transfer_messages handle_entries handle_entry seen
  handle_entries-transfer s [] pos_size h = cc
  handle_entries-transfer s (e ∷ es) pos_size h =
      let same : e.fields ≡ start_fields p size content base tid = cc in
      rw (same, receive-start)
        (receive-chunks (length content) 0 0 [] e.id (e.at + wait_timeout) es pos_size (omega arith)
          (λ k le. refl) (cc))
