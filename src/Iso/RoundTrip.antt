-- ===== src/Iso/RoundTrip.antt =====
-- `NewIso8583Message` reads back what `FormatIso` writes.
mod Value
mod Loop
mod Whole
pub use Whole.{text, format_iso-text, new_iso8583_message-text}
