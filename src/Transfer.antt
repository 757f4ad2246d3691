-- ===== src/Transfer.antt =====
-- shared/delegate_protocol/chunked_transfer.py: the two ends of the chunked transfer protocol.
pub mod Sender
pub mod Receiver
pub mod Loop
pub mod Chunks
pub mod RoundTrip
pub mod Batches
pub mod Soundness
mod Tests
