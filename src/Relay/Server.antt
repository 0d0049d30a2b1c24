-- ===== src/Relay/Server.antt =====
-- relay/relay.rs: the relay server.
pub mod Cached
pub mod Loop
pub mod Acts
pub mod Address
pub mod Served
pub mod Peers
pub mod Answers
pub mod Handled
pub mod Rendezvous
use pcopy.Prelude.{ℕ, zero, suc, Bool, List, [], ◌∷◌, ◌++◌, ◌==◌, if◌then◌else◌, Option, none, some}
use pcopy.Prelude.Outcome.{Outcome, ok, err, panic, stuck, or_panic, unwrap}
use pcopy.Prelude.Exec.{Exec, pure, raise, lift, continue, ◌>>=◌, ◌>>◌}
use pcopy.Rust.IoError.{IoError, invalid_data, invalid_input, broken_pipe}
use pcopy.Rust.IpAddr.{IpAddr}
use pcopy.Rust.Text.{decimal, colon}
use pcopy.Rust.Duration.{Duration}
use pcopy.Crates.Bytes.{Bytes}
use pcopy.Crates.ByteOrder.{ByteOrder}
use pcopy.Crates.DashMap.{DashMap}
use pcopy.Relay.PeerId.{PeerId}
use pcopy.Relay.PeerInfo.{PeerInfo}
use pcopy.Relay.HealthStatus.{HealthStatus, healthy}
use pcopy.Relay.StatusCodes.{success, failure}
use pcopy.Relay.PeerCommands.{sync, doconnect}
use pcopy.Relay.RelayFrames.{RelayFrames, register, probe, do_connect, ping, probe_ack}
use pcopy.Relay.RelayFrames.Trait.{relay_frame}
use pcopy.Relay.PeerFrames.{
  PeerFrames, register_result, probe_result, do_connect_result, ping_result, command,
}
use pcopy.Relay.PeerFrames.Trait.{peer_frame}
use pcopy.Relay.Stream.{Stream}
use pcopy.Relay.FrameHelper.{Inbox, read_frame_given_stream, write_frame_given_stream}
use pcopy.Relay.Cache
use pcopy.Relay.Cache.{Cache}

-- A stream is shared (`Arc<Mutex<..>>`) between its connection and the cache: both hold its number.
pub record PeerConnectionMetadata : Type 0 where
  pub stream : ℕ
  pub ip_addr : IpAddr

module _ (dash : DashMap PeerId PeerConnectionMetadata) where
  -- The server and the streams that its tasks share.
  pub record World : Type 0 where
    pub server_address : List ℕ
    pub conn_cache : Cache dash
    pub health_status : HealthStatus
    pub streams : ℕ → Stream

  -- `Server::new`, before any connection. The address is given by its text.
  unfoldable pub init : List ℕ → ℕ → (ℕ → Stream) → World
  init ip port streams = record {
    server_address = (ip ++ colon ∷ []) ++ decimal port;
    conn_cache = Cache.new dash 1024;
    health_status = healthy;
    streams = streams;
  }

  unfoldable pub get_server_address : World → List ℕ
  get_server_address w = w.server_address

  -- `todo!()`
  unfoldable pub ping_server : Exec World IoError Bool
  ping_server w = (panic, w)

  -- The new value of a stream.
  unfoldable pub set_stream : World → ℕ → Stream → World
  set_stream w id s = record w { streams = λ j. if j == id then s else w.streams j }

  -- `register`: `insert` returns the old value, and `unwrap` panics where there was none.
  unfoldable pub register_peer : PeerId → IpAddr → ℕ → Exec World IoError (Unit {0})
  register_peer peer_id source_ip stream w =
      let (old, cache) =
        Cache.insert dash w.conn_cache peer_id (record { stream = stream; ip_addr = source_ip }) in
      continue (or_panic old) (λ _. pure tt) (record w { conn_cache = cache })

  module _ ⦃b : Bytes⦄ ⦃order : ByteOrder⦄ where
    unfoldable pub write_to : ℕ → PeerFrames → Exec World IoError (Unit {0})
    unfolding set_stream
    write_to id f w =
        let (r, s) = write_frame_given_stream peer_frame f (w.streams id) in (r, set_stream w id s)

    -- A frame that is read with a buffer, and the buffer behind it.
    unfoldable pub read_from : ℕ → List ℕ → Exec World IoError (Option RelayFrames × List ℕ)
    unfolding set_stream
    read_from id buffer w =
        let (r, inbox) = read_frame_given_stream relay_frame buffer (w.streams id).incoming in
        let s : Stream = record (w.streams id) { incoming = inbox.incoming } in
        continue r (λ f. pure (f, inbox.buffer)) (set_stream w id s)

    -- The answer to SYNC; `elapsed` is the time that it took.
    unfoldable pub probe_answer :
        Option RelayFrames → PeerId → IpAddr → Duration → Outcome IoError PeerInfo
    probe_answer (some probe_ack) peer_id ip elapsed =
        ok (record { peer_id = peer_id; ip = ip; ping_rtt = elapsed })
    probe_answer (some f) peer_id ip elapsed = err invalid_data
    probe_answer none peer_id ip elapsed = err broken_pipe

    -- `read_frame_given_stream(..).await.unwrap()`
    unfoldable pub read_ack : ℕ → Exec World IoError (Option RelayFrames × List ℕ)
    unfolding read_from
    read_ack id w = let (r, w') = read_from id [] w in (unwrap r, w')

    unfoldable pub probe_found :
        Option PeerConnectionMetadata → PeerId → Duration → Exec World IoError PeerInfo
    unfolding write_to read_ack probe_answer
    probe_found none peer_id elapsed = raise invalid_input
    probe_found (some conn_md) peer_id elapsed = do
      write_to conn_md.stream (command sync)
      (frame, buffer) ← read_ack conn_md.stream
      lift (probe_answer frame peer_id conn_md.ip_addr elapsed)

    unfoldable pub probe_peer : PeerId → Duration → Exec World IoError PeerInfo
    unfolding probe_found
    probe_peer peer_id elapsed w =
        probe_found (Cache.get dash w.conn_cache peer_id) peer_id elapsed w

    unfoldable pub doconnect_found :
        Option PeerConnectionMetadata → IpAddr → Exec World IoError (Unit {0})
    unfolding write_to
    doconnect_found none source_ip = raise invalid_input
    doconnect_found (some conn_md) source_ip =
        write_to conn_md.stream (command (doconnect source_ip))

    unfoldable pub doconnect_peer : PeerId → IpAddr → Exec World IoError (Unit {0})
    unfolding doconnect_found
    doconnect_peer destination_peer_id source_ip w =
        doconnect_found (Cache.get dash w.conn_cache destination_peer_id) source_ip w

    -- `match .. { Ok(a) => write_frame(..), Err(_) => write_frame(..) }`
    unfoldable pub answer {ℓ} :
        {A : Type ℓ}
        → Outcome IoError A
        → (A → PeerFrames)
        → PeerFrames
        → ℕ
        → Exec World IoError (Unit {0})
    unfolding write_to
    answer (ok a) good bad id = write_to id (good a)
    answer (err e) good bad id = write_to id bad
    answer panic good bad id = lift panic
    answer stuck good bad id = lift stuck

    unfoldable pub process_register_frame : ℕ → IpAddr → PeerId → Exec World IoError (Unit {0})
    unfolding answer
    process_register_frame id source_ip peer_id w =
        let (r, w') = register_peer peer_id source_ip id w in
        answer r (λ _. register_result success) (register_result failure) id w'

    unfoldable pub process_probe_frame : ℕ → PeerId → Duration → Exec World IoError (Unit {0})
    unfolding answer probe_peer
    process_probe_frame id peer_id elapsed w =
        let (r, w') = probe_peer peer_id elapsed w in
        answer r (λ info. probe_result (some info)) (probe_result none) id w'

    unfoldable pub process_sync_frame : ℕ → IpAddr → PeerId → Exec World IoError (Unit {0})
    unfolding answer doconnect_peer
    process_sync_frame id source_ip peer_id w =
        let (r, w') = doconnect_peer peer_id source_ip w in
        answer r (λ _. do_connect_result success) (do_connect_result failure) id w'

    unfoldable pub process_ping_frame : ℕ → Exec World IoError (Unit {0})
    process_ping_frame id w = write_to id (ping_result w.health_status) w

    -- One frame of a connection; `elapsed` is the time that a probe takes.
    unfoldable pub process_frame :
        RelayFrames → ℕ → IpAddr → Duration → Exec World IoError (Unit {0})
    process_frame (register peer_id) id source_ip elapsed =
        process_register_frame id source_ip peer_id
    process_frame (probe peer_id) id source_ip elapsed = process_probe_frame id peer_id elapsed
    process_frame (do_connect peer_id) id source_ip elapsed =
        process_sync_frame id source_ip peer_id
    process_frame ping id source_ip elapsed = process_ping_frame id
    process_frame probe_ack id source_ip elapsed = raise invalid_data

    -- The loop of a connection, on fuel; its buffer lives as long as it does. `elapsed k` is the time
    -- that a probe takes in the round with `k` rounds left.
    unfoldable pub process_connection :
        ℕ → ℕ → IpAddr → (ℕ → Duration) → List ℕ → Exec World IoError (Unit {0})
    process_connection zero id source_ip elapsed buffer w = (stuck, w)
    process_connection (suc fuel) id source_ip elapsed buffer w =
        let (r, w1) = read_from id buffer w in
        continue (unwrap r)
          (λ read w2.
            let (frame, buffer') = read in
            elim frame [
              | none ↦ (ok tt, w2)
              | some f ↦
                  let (done, w3) = process_frame f id source_ip (elapsed fuel) w2 in
                  continue done (λ _ w4. process_connection fuel id source_ip elapsed buffer' w4) w3
            ])
          w1

    -- The task of a connection that the relay accepted, with a buffer that is empty yet.
    unfoldable pub accepted : ℕ → ℕ → IpAddr → (ℕ → Duration) → Exec World IoError (Unit {0})
    accepted fuel id source_ip elapsed = process_connection fuel id source_ip elapsed []
