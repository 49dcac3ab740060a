-- ===== src/Iso/Parsed.antt =====
-- Whatever `NewIso8583Message` accepts is a well-formed message.
pub mod Value
mod Loop
mod Whole
pub use Whole.{new_iso8583_message-IsWellFormed}
