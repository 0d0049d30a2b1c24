-- ===== src/Rust/IoError.antt =====
-- std::io::Error by its kind; the texts of the messages are left out.
use pcopy.Prelude.{ℕ}

-- The kinds that the program names, and `os n` for the others, which only the system makes.
pub data IoError : Type 0 where
  invalid_data invalid_input other connection_reset broken_pipe unexpected_eof : IoError
  os : ℕ → IoError
