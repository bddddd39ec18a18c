-- ===== src/Remote.antt =====
-- The remote channel (src/remote): the codec of its messages, the server's session, and web socket frames.
pub mod Bytes
pub mod Codec
pub mod Strings
pub mod RoundTrip
pub mod Offers
pub mod Session
pub mod Safety
pub mod Answers
pub mod Handshake
pub mod Refusals
pub mod Histories
pub mod WsFrame
pub mod WsMask
pub mod WsLaws
pub mod WsServer
mod Tests
mod WsTests
