-- ===== src/Relay/Stream.antt =====
-- The two directions of a TCP stream (`BufWriter<TcpStream>` of tokio) as the program meets them: what
-- the remote side and the network do is a list of events, and what was sent is kept.
use pcopy.Prelude.{ℕ, List, [], ◌∷◌, ◌++◌, take}
use pcopy.Prelude.Outcome.{ok, err}
use pcopy.Prelude.Exec.{Exec}
use pcopy.Rust.IoError.{IoError}

-- One call of `read_buf`: bytes that are appended to the buffer, none of them at the end of the stream,
-- or an error.
pub data Delivery : Type 0 where
  chunk : List ℕ → Delivery
  broken : IoError → Delivery

-- One call of `write_all` and `flush`: all bytes go out, or an error after the first `n`.
pub data Sending : Type 0 where
  sent : Sending
  failed : ℕ → IoError → Sending

-- Behind the last event of `incoming` stands the end of the stream; behind the last of `sendings` every
-- call succeeds.
pub record Stream : Type 0 where
  pub incoming : List Delivery
  pub sendings : List Sending
  pub outgoing : List ℕ

send : Sending → List ℕ → List Sending → Exec Stream IoError (Unit {0})
send sent bytes more s = (ok tt, record s { sendings = more; outgoing = s.outgoing ++ bytes })
send (failed n e) bytes more s =
    (err e, record s { sendings = more; outgoing = s.outgoing ++ take n bytes })

send_next : List Sending → List ℕ → Exec Stream IoError (Unit {0})
unfolding send
send_next [] bytes s = send sent bytes [] s
send_next (x ∷ more) bytes s = send x bytes more s

-- `write_all` and `flush`
unfoldable pub write_all : List ℕ → Exec Stream IoError (Unit {0})
unfolding send_next
write_all bytes s = send_next s.sendings bytes s
