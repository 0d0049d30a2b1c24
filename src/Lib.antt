-- ===== src/Lib.antt =====
-- pcopy: a program that copies folders to a server, and a relay by which two peers find each other.
--
-- The program has two parts that share no code: the relay, and the transfer of files.
--
-- The relay (src/relay). Peers hold TCP connections to a relay server. A peer sends `RelayFrames`, and
-- the relay sends `PeerFrames`; both are a byte that names the operation and a body. A frame is read by
-- a loop that appends what the stream delivers to a buffer and parses the buffer from its front.
--   Relay.FrameError, RelayOperations, PeerOperations, StatusCodes, PeerCommands, Frame, RelayFrames and
--     PeerFrames: src/relay/frame.rs. `parse` and `to_be_bytes` are the functions of the trait; a parser
--     returns the cursor that it leaves.
--   Relay.PeerId and PeerInfo: src/relay/peer.rs.
--   Relay.Stream: what a tokio stream delivers and what it takes, as lists of events.
--   Relay.FrameHelper: src/relay/framehelper.rs. `read_frame_given_stream` recurses on what the stream
--     has yet to deliver, so it needs no fuel.
--   Relay.Connection: src/relay/connection.rs. `relay_read`, `relay_write`, `peer_read` and `peer_write`
--     are the methods of RelayConnection and PeerConnection.
--   Relay.Cache: src/relay/cache.rs.
--   Relay.HealthStatus and Server: src/relay/relay.rs. A stream that a connection shares with the cache
--     is a number, and `World` has the streams by their numbers, so that a write of a handler to another
--     peer's stream is seen by that peer's connection. `process_connection` is on fuel, which counts
--     frames; the loop of the program has no bound. Server.Acts takes what a handler does apart into acts
--     on a stream or on the cache, and Server.Served has the loops of the connections in turns, each for
--     some frames. Address has what the cache keeps of the peers, Handled what each handler sends against
--     the lists of Answers, Peers a probe, and Rendezvous what the two peers read of it.
--   Relay.Sender: src/relay/sender.rs. Both loops are on fuel, which counts reads, and `stuck` says that
--     it ran out; the theorems on them hold for every fuel.
--
-- The file server (src/server/server.rs). A request is a byte, a path with its length and checksum, and
-- for a file its length, content and checksum; the server saves it under a folder of its own.
--   Server.Reader: the trait ReadFromStream and its implementation for TcpStream.
--   Server.Session: the socket, the buffer of 1024 bytes and what was done on the disk, in order; the
--     loop in front of each field (`fill`) and `read_checksum`. The fuel of `fill` is the number of bytes
--     that it needs, which is enough, since a round that goes on has read one.
--   Server.Folder: `create_parent_folder`. The folder that the server saves under is an argument.
--   Server.File: `save_file`. The fuel of `receive` is the length of the file that is left.
--   Server.Request: the task that `run` spawns for a connection.
--   Server.Address: the server's record, and the address on which it listens.
--   Server.Arrival: a request that arrives in pieces. A record has what of it is in the buffer and what
--     is on its way, and its modules take a field, the path and the content from the front of it. Content
--     has the loop when nothing comes with the end of the content, Loop when other bytes may; Saved and
--     Anyway have the request as a whole in these two cases, Made and Refused a path with a right and with
--     a wrong checksum.
--   Server.Bounds: fuel and indices, for whatever arrives.
--   Server.Suite: the tests in server.rs, with the streams that stand in for a connection; their texts are
--     arguments. Relay.Suite has those in src/relay/frame.rs and src/relay/framehelper.rs.
--   Server.Checked: the bytes that were written and the hasher, for whatever arrives.
--
-- The client (src/client/client.rs). Client: `send_file`, from the opened connection and file on: a buffer
-- with the header and what the first read of the file brings, then the rest by further reads, then the
-- checksum. `send_rest` is on fuel, which counts reads. Client.Folder: `send_folder`, with what the walk
-- over the folder finds as a list, and the connection and the opening of a file as a parameter.
-- Client.Pieces has a file that takes many reads (Rest and FirstRead are its steps), and Saving the
-- client together with the server.
--
-- The command line (src/main.rs). Main: what `main` starts, by the arguments; `to_lowercase` and the
-- address of the machine are parameters.
--
-- Rust has what the program uses of the standard library: cursors, addresses, durations, paths, texts, a
-- disk, assertions.
-- Crates has the crates bytes, byteorder, crc32fast and dashmap, as records of the operations that are
-- called and of the laws that they are documented to have. Prelude has results that can also panic or
-- run out of fuel (`Outcome`), the monad over a state (`Exec`), big-endian numbers and lists. Tests has
-- one run for each result, with small functions in the place of the crates.
--
-- An index or a length is a number without a bound, and a byte is a number; where the source cuts to a
-- width, the cut is written out. Subtraction of indices panics below zero, as in a build with overflow
-- checks.
--
-- Not modelled: the tests in src/relay/sender.rs, whose calls of the program are comments;
-- listeners and the spawning of tasks, which are I/O; the lock of a stream: it is held over the read and
-- over the write and flush of a frame, so that each of these is one step here, and what another task sees
-- of a frame that is half written is left out; the guard of the cache that a handler holds while it awaits
-- a stream, and another task on the peer's stream during a probe, which is one run here; a disk that
-- answers the same call differently at another time; logging and the texts of errors; the
-- benchmark (benches/localtransfer.rs), which runs the command line.
pub mod Prelude
pub mod Rust
pub mod Crates
pub mod Relay
pub mod Server
pub mod Client
pub mod Main
pub mod Tests
