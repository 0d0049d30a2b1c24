-- ===== src/Relay/FrameError.antt =====
-- relay/frame.rs: the errors of reading a frame.
use pcopy.Rust.IoError.{IoError, invalid_data}

pub data FrameError : Type 0 where
  incomplete : FrameError
  other : IoError → FrameError

-- `From<std::io::Error>`: data that is not valid counts as a frame that is not complete.
unfoldable pub from_io : IoError → FrameError
from_io invalid_data = incomplete
from_io value = other value

-- `Into<std::io::Error>`: the kind is always `Other`; only the text is kept.
unfoldable pub into_io : FrameError → IoError
into_io e = IoError.other
