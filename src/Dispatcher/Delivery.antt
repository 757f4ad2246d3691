-- ===== src/Dispatcher/Delivery.antt =====
-- An output transfer from end to end: what the worker's sender publishes on the output stream, the
-- watcher stores.
use delegate_implementation.Base.{
  ℕ, zero, suc, ◌+◌, ◌≤◌, ◌<◌, ℤ, pos, Text, text_eq-false, text_eq_refl, List, [], ◌∷◌, ◌++◌, map,
  All, Option, none, some, Bool-cases, ltb, length, take, take-all, false, ◌≡◌, inl, inr, refl, ◌∙◌,
  arith, ok,
}
use delegate_implementation.Platform.{Platform, Bytes, Fields}
use delegate_implementation.Streams.{StreamKeys, stream_keys}
use delegate_implementation.Streams.Isolation.{events, log, status, output, stream_keys-distinct}
use delegate_implementation.Workspace.{Os}
use delegate_implementation.Transfer.Sender.{
  range_from, slice, sha256_bytes, start_fields, chunk_fields, end_fields, send_chunks,
  transfer_messages, send_bytes,
}
use delegate_implementation.Transfer.Receiver.{seen}
use delegate_implementation.Transfer.Chunks.{receive-start, receive-chunk, receive-end}
use delegate_implementation.Transfer.RoundTrip.{Fresh, Fresh-suc, slice-take}
use delegate_implementation.Transfer.Batches.{send_bytes-messages}
use delegate_implementation.Models.{succeeded}
use delegate_implementation.Models.Tables.{update_executions, on_executions, add_audit}
use delegate_implementation.Dispatcher.World.{World}
use delegate_implementation.Dispatcher.Output.{OutputState, output_path, handle_output_message}
use delegate_implementation.Dispatcher.Protocol.{accept, handle_output_message-receive_message}
use delegate_implementation.Dispatcher.Watch.{
  Message, Watcher, set_cursor, dispatch, handle_messages,
}

-- The fields of the messages, in order.
abbrev pub bodies : List Message → List Fields
bodies = map (λ m. m.fields)

-- The cursors after the messages.
abbrev pub cursors : List Message → List (Text × Text) → List (Text × Text)
cursors [] c = c
cursors (m ∷ ms) c = cursors ms (set_cursor m.stream_key m.id c)

module _ (p : Platform) (os : Os) (fixtures_dir media_root execution_id eid did : Text) where
  abbrev keys : StreamKeys
  keys = stream_keys eid did

  -- A message on the output stream goes to the output handler.
  dispatch-output :
      (m : Message) (s : Watcher) (w : World) {state : Option OutputState} {w' : World}
      → m.stream_key ≡ keys.output
      → handle_output_message p os media_root execution_id m.fields s.output_state w
        ≡ (ok state, w')
      → dispatch p os fixtures_dir media_root execution_id keys m s w
        ≡ (ok (record s { output_state = state }), w')
  unfolding dispatch
  dispatch-output m s w there h =
      let e1 =
        text_eq-false keys.output keys.events
          (λ e. absurd (ground (arith, stream_keys-distinct eid did output events e))) in
      let e2 =
        text_eq-false keys.output keys.log
          (λ e. absurd (ground (arith, stream_keys-distinct eid did output log e))) in
      let e3 =
        text_eq-false keys.output keys.status
          (λ e. absurd (ground (arith, stream_keys-distinct eid did output status e))) in
      rw (there, e1, e2, e3, text_eq_refl) (ground arith)

  handle-one :
      (m : Message) (ms : List Message) (s : Watcher) (w : World) {s' : Watcher} {w' : World}
      → dispatch p os fixtures_dir media_root execution_id keys m
          (record s { last_ids = set_cursor m.stream_key m.id s.last_ids })
          w
        ≡ (ok s', w')
      → handle_messages p os fixtures_dir media_root execution_id keys (m ∷ ms) s w
        ≡ handle_messages p os fixtures_dir media_root execution_id keys ms s' w'
  unfolding handle_messages
  handle-one m ms s w h = ground arith

  module _ (size : ℕ) (content : Bytes) (base : Fields) (tid : Text) where
    -- The watcher in the middle of the transfer, with the bytes before the offset `lo` received.
    abbrev at_offset : ℕ → List ℤ → Watcher → Watcher
    at_offset lo seen_seq s = record s {
      output_state = some (record {
        transfer_id = tid;
        total_size = pos (length content);
        checksum = sha256_bytes p content;
        buf = take lo content;
        seen_seq = seen_seq;
      });
    }

    step-start :
        (m : Message) (s : Watcher) (w : World)
        → m.stream_key ≡ keys.output
        → m.fields ≡ start_fields p size content base tid
        → dispatch p os fixtures_dir media_root execution_id keys m s w ≡ (ok (at_offset 0 [] s), w)
    step-start m s w there h =
        dispatch-output m s w there
          (rw (handle_output_message-receive_message, h, receive-start) refl)

    step-chunk :
        (lo seq : ℕ) (seen_seq : List ℤ) (m : Message) (s : Watcher) (w : World)
        → seen (pos seq) seen_seq ≡ false
        → m.stream_key ≡ keys.output
        → m.fields ≡ chunk_fields p (slice content lo (lo + size)) seq base tid
        → dispatch p os fixtures_dir media_root execution_id keys m (at_offset lo seen_seq s) w
          ≡ (ok (at_offset (lo + size) (pos seq ∷ seen_seq) s), w)
    step-chunk lo seq seen_seq m s w fresh there h =
        dispatch-output m (at_offset lo seen_seq s) w there
          (rw (handle_output_message-receive_message, h, receive-chunk, fresh, slice-take) refl)

    -- The watcher after all of it.
    abbrev finished : List Message → Watcher → Watcher
    finished ms s = record s { output_state = none; last_ids = cursors ms s.last_ids }

    abbrev stored : World → World
    stored w = (accept p os media_root execution_id content (sha256_bytes p content) w).1

    module _ {uuid : Text} (known : p.to_uuid execution_id ≡ some uuid) where
      step-end :
          (lo : ℕ) (seen_seq : List ℤ) (chunks : ℕ) (m : Message) (s : Watcher) (w : World)
          → length content ≤ lo
          → m.stream_key ≡ keys.output
          → m.fields ≡ end_fields p chunks base tid
          → dispatch p os fixtures_dir media_root execution_id keys m (at_offset lo seen_seq s) w
            ≡ (ok (record s { output_state = none }), stored w)
      step-end lo seen_seq chunks m s w all there h =
          dispatch-output m (at_offset lo seen_seq s) w there (
            rw (handle_output_message-receive_message, h, take-all content lo all, receive-end)
              (ground arith))

      handle-last :
          (lo seq : ℕ) (seen_seq : List ℤ) (ms : List Message) (s : Watcher) (w : World)
          → length content ≤ lo
          → All (λ m. m.stream_key ≡ keys.output) ms
          → bodies ms ≡ end_fields p seq base tid ∷ []
          → handle_messages p os fixtures_dir media_root execution_id keys ms
              (at_offset lo seen_seq s)
              w
            ≡ (ok (finished ms s), stored w)
      unfolding handle_messages
      handle-last lo seq seen_seq [] s w all there h = cc
      handle-last lo seq seen_seq (m ∷ []) s w all there h =
          let s' = record s { last_ids = set_cursor m.stream_key m.id s.last_ids } in
          handle-one m [] (at_offset lo seen_seq s) w
            (step-end lo seen_seq seq m s' w all there.0 (cc))
      handle-last lo seq seen_seq (m ∷ n ∷ ms) s w all there h = cc

      handle-chunks :
          (fuel lo seq : ℕ) (seen_seq : List ℤ) (ms : List Message) (s : Watcher) (w : World)
          → 0 < size
          → length content ≤ lo + fuel
          → Fresh seq seen_seq
          → All (λ m. m.stream_key ≡ keys.output) ms
          → bodies ms
            ≡ send_chunks p size content base tid (range_from fuel lo (length content) size) seq
          → handle_messages p os fixtures_dir media_root execution_id keys ms
              (at_offset lo seen_seq s)
              w
            ≡ (ok (finished ms s), stored w)
      unfolding handle_messages send_chunks range_from
      handle-chunks zero lo seq seen_seq ms s w pos_size long fresh there h =
          handle-last lo seq seen_seq ms s w (omega arith) there h
      handle-chunks (suc fuel) lo seq seen_seq [] s w pos_size long fresh there h =
          elim (Bool-cases (ltb lo (length content))) [
            | inl more ↦ absurd (ground arith)
            | inr done ↦ absurd (ground arith)
          ]
      handle-chunks (suc fuel) lo seq seen_seq (m ∷ ms) s w pos_size long fresh there h =
          elim (Bool-cases (ltb lo (length content))) [
            | inl more ↦
                let h' = rw more at h in
                let s' = record s { last_ids = set_cursor m.stream_key m.id s.last_ids } in
                handle-one m ms (at_offset lo seen_seq s) w
                  (step-chunk lo seq seen_seq m s' w (fresh seq (omega arith)) there.0 (cc))
                ∙ (handle-chunks fuel (lo + size) (seq + 1) (pos seq ∷ seen_seq) ms s' w pos_size
                    (omega arith) (Fresh-suc seq seen_seq fresh) there.1 (cc))
            | inr done ↦
                handle-last lo seq seen_seq (m ∷ ms) s w (ground arith) there (rw done at h)
          ]

      handle-transfer :
          (ms : List Message) (s : Watcher) (w : World)
          → 0 < size
          → All (λ m. m.stream_key ≡ keys.output) ms
          → bodies ms ≡ transfer_messages p size content base tid
          → handle_messages p os fixtures_dir media_root execution_id keys ms s w
            ≡ (ok (finished ms s), stored w)
      unfolding transfer_messages seen
      handle-transfer [] s w pos_size there h = cc
      handle-transfer (m ∷ ms) s w pos_size there h =
          let s' = record s { last_ids = set_cursor m.stream_key m.id s.last_ids } in
          handle-one m ms s w (step-start m s' w there.0 (cc))
          ∙ handle-chunks (length content) 0 0 [] ms s' w pos_size (omega arith) (λ k le. refl)
              there.1 (cc)

      -- What a worker publishes with `send_bytes` on its output stream, read in order by the
      -- watcher, is stored: the file holds exactly the content, the row says SUCCEEDED with the
      -- path and the checksum, and the watcher is ready for the next transfer.
      pub handle_messages-send_bytes :
          (ms : List Message) (s : Watcher) (w : World)
          → 0 < size
          → All (λ m. m.stream_key ≡ keys.output) ms
          → bodies ms ≡ map (λ c. c.1) (send_bytes p size keys.output content base tid).commands
          → let (r, w') = handle_messages p os fixtures_dir media_root execution_id keys ms s w in
            (r ≡ ok (record s { output_state = none; last_ids = cursors ms s.last_ids }))
            × (w'.files ≡ w.files ++ (output_path p os media_root execution_id, content) ∷ [])
            × (w'.db.executions
                ≡ update_executions uuid
                    (λ row. record row {
                      status = succeeded;
                      output_path = output_path p os media_root execution_id;
                      output_checksum = sha256_bytes p content;
                    })
                    w.db.executions)
      unfolding add_audit on_executions
      handle_messages-send_bytes ms s w pos_size there h =
          let e =
            handle-transfer ms s w pos_size there
              (h ∙ send_bytes-messages p size keys.output content base tid pos_size) in
          rw e (ground arith)
