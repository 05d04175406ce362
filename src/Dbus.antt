-- ===== src/Dbus.antt =====
-- internal/dbus: the D-Bus client.
pub mod Value
pub mod Result
pub mod Signature
pub mod Encoder
pub mod Decoder
pub mod Datum
pub mod Padding
pub mod Put
pub mod Extent
pub mod Message
pub mod RoundTrip
pub mod Assign
pub mod Conn
mod Examples
pub mod Period
