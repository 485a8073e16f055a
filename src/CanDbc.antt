-- ===== src/CanDbc.antt =====
-- `can_handler/can_communication_handler/`: `CanDbcHandler`, which translates between frames and
-- physical values, and `CanRawHandler`.
pub mod Words
pub mod Signal
pub mod Handler
pub mod Raw
pub mod Fields
pub mod Bytes
pub mod Placement
pub mod Sign
pub mod Encode
pub mod RoundTrip
pub mod Reading
pub mod Loading
pub mod Range
pub mod Forward
mod Tests
