-- ===== src/Relay.antt =====
-- relay/: the relay server, its frames and its clients.
pub mod FrameError
pub mod PeerId
pub mod PeerInfo
pub mod RelayOperations
pub mod PeerOperations
pub mod StatusCodes
pub mod HealthStatus
pub mod PeerCommands
pub mod Frame
pub mod RelayFrames
pub mod PeerFrames
pub mod Stream
pub mod FrameHelper
pub mod Connection
pub mod Suite
pub mod Sender
pub mod Cache
pub mod Server
