-- ===== src/Dispatcher/Output.antt =====
-- control_plane/delegates/management/commands/stream_dispatcher.py: `_handle_output_message`, the
-- receiving end of the output transfer. Its variable `state` is an `Option`.
use delegate_implementation.Base.{
  ℤ, pos, Text, codes, lookup, List, [], ◌∷◌, ◌++◌, Option, none, some, Bool, ◌&&◌, if◌then◌else◌,
  length, text_eq, int_eq, key_error, value_error, or_raise,
}
use delegate_implementation.Platform.{Platform, Bytes, Fields}
use delegate_implementation.Workspace.{Os}
use delegate_implementation.Transfer.Sender.{sha256_bytes}
use delegate_implementation.Transfer.Receiver.{seen, same_text, is_type}
use delegate_implementation.Models.{lit, val, num, succeeded, failed}
use delegate_implementation.Dispatcher.World.{
  M, ◌>>=◌, ◌>>◌, pure, lift, audit, write_file, update_execution,
}
use delegate_implementation.Dispatcher.Requests.{event_of}

pub record OutputState : Type 0 where
  pub transfer_id : Text
  pub total_size : ℤ
  pub checksum : Text
  pub buf : Bytes
  pub seen_seq : List ℤ

-- `len(data) == state["total_size"] and sha256_bytes(data) == state["checksum"]`
unfoldable pub is_valid_output : Platform → OutputState → Bool
unfolding int_eq text_eq
is_valid_output p state =
    int_eq (pos (length state.buf)) state.total_size
    && text_eq (sha256_bytes p state.buf) state.checksum

unfoldable pub is_for : OutputState → Fields → Bool
unfolding same_text
is_for state fields = same_text (lookup "transfer_id" fields) (some state.transfer_id)

module _ (p : Platform) (os : Os) where
  unfoldable pub output_start : Fields → M (Option OutputState)
  output_start fields = do
    transfer_id ← lift (or_raise (lookup "transfer_id" fields) key_error)
    size_text ← lift (or_raise (lookup "total_size" fields) key_error)
    total_size ← lift (or_raise (p.int_str size_text) value_error)
    checksum ← lift (or_raise (lookup "checksum" fields) key_error)
    pure (
        some (record {
          transfer_id = transfer_id;
          total_size = total_size;
          checksum = checksum;
          buf = [];
          seen_seq = [];
        }))

  unfoldable pub output_chunk : OutputState → Fields → M (Option OutputState)
  output_chunk state fields = do
    seq_text ← lift (or_raise (lookup "sequence_no" fields) key_error)
    seq ← lift (or_raise (p.int_str seq_text) value_error)
    if seen seq state.seen_seq then pure (some state) else do
      payload ← lift (or_raise (lookup "chunk_b64" fields) key_error)
      chunk ← lift (or_raise (p.b64decode payload) value_error)
      pure (some (record state { buf = state.buf ++ chunk; seen_seq = seq ∷ state.seen_seq }))

  -- `os.path.join(media_root, "outputs", f"{execution_id}.zip")`
  unfoldable pub output_path : Text → Text → Text
  output_path media_root execution_id =
      os.join (os.join media_root (codes "outputs")) (execution_id ++ codes ".zip")

  unfoldable pub output_end : Text → Text → OutputState → M (Option OutputState)
  output_end media_root execution_id state =
      let out_path = output_path media_root execution_id in
      do
        if is_valid_output p state
            then (do
              write_file out_path state.buf
              update_execution p execution_id (λ row. record row {
                status = succeeded;
                output_path = out_path;
                output_checksum = state.checksum;
              })
              audit (
                  event_of "OUTPUT_RECEIVED" [] [] execution_id
                    (lit "path=" ∷ val out_path ∷ lit " size=" ∷ num (length state.buf) ∷ [])))
            else do
              update_execution p execution_id (λ row. record row { status = failed })
              audit (
                  event_of "OUTPUT_VALIDATION_FAILED" [] [] execution_id
                    (lit "size or checksum mismatch on output transfer" ∷ []))
        pure none

  unfoldable pub handle_output_message :
      Text → Text → Fields → Option OutputState → M (Option OutputState)
  handle_output_message media_root execution_id fields state =
      if is_type fields (codes "DATA_START") then output_start fields else elim state [
        | none ↦ pure none
        | some st ↦
            if is_type fields (codes "DATA_CHUNK") && is_for st fields
            then output_chunk st fields
            else if is_type fields (codes "DATA_END") && is_for st fields
            then output_end media_root execution_id st
            else pure (some st)
      ]
