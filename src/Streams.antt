-- ===== src/Streams.antt =====
-- shared/delegate_protocol/streams.py: the names of the Redis keys that both sides agree on.
pub mod Isolation
mod Tests
use delegate_implementation.Base.{Text, codes, ◌++◌}

abbrev pub global_execution_events_stream : Text
global_execution_events_stream = codes "global:execution_events"

unfoldable pub delegate_prefix : Text → Text
delegate_prefix delegate_id = codes "delegate:" ++ (delegate_id ++ codes ":")

-- The dict that `stream_keys` returns.
pub record StreamKeys : Type 0 where
  pub events : Text
  pub log : Text
  pub status : Text
  pub output : Text

unfoldable pub stream_keys : Text → Text → StreamKeys
stream_keys execution_id delegate_id =
    let base = delegate_prefix delegate_id ++ (codes "execution:" ++ execution_id) in
    record {
      events = base ++ codes ":events";
      log = base ++ codes ":log";
      status = base ++ codes ":status";
      output = base ++ codes ":output";
    }
