-- ===== src/Wire.antt =====
-- The typed value protocol of wire.go: the tags, the encoder, the bounds-checked reader, the decoder
-- of nodes and that of result envelopes; then what is proved about them.
pub mod Tags
pub mod LittleEndian
pub mod Magnitude
pub mod Encode
pub mod Reader
pub mod Decode
pub mod Decoded
pub mod Envelope
pub mod Reads
pub mod Node
pub mod Payloads
pub mod Integers
pub mod RoundTrip
pub mod Lists
pub mod Bounds
pub mod Raised
pub mod Truncated
