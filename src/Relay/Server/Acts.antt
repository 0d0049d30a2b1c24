-- ===== src/Relay/Server/Acts.antt =====
-- What the tasks of the relay's connections do to the streams and the cache that they share.
use pcopy.Prelude.{ℕ, zero, suc, List, ◌≡◌, refl, [], Option, none, some}
use pcopy.Prelude.Outcome.{Outcome, ok, err, panic, stuck, unwrap}
use pcopy.Prelude.Exec.{Exec, continue, ◌>>=◌, pure}
use pcopy.Rust.IoError.{IoError}
use pcopy.Rust.IpAddr.{IpAddr}
use pcopy.Rust.Duration.{Duration}
use pcopy.Crates.Bytes.{Bytes}
use pcopy.Crates.ByteOrder.{ByteOrder}
use pcopy.Crates.DashMap.{DashMap}
use pcopy.Relay.Cache
use pcopy.Relay.PeerId.{PeerId}
use pcopy.Relay.PeerCommands.{sync, doconnect}
use pcopy.Relay.RelayFrames.{RelayFrames, register, probe, do_connect, ping, probe_ack}
use pcopy.Relay.PeerFrames.{PeerFrames, command}
use pcopy.Relay.RelayFrames.Trait.{relay_frame}
use pcopy.Relay.FrameHelper.{read_frame_given_stream}
use pcopy.Relay.Stream.{Delivery}
use pcopy.Relay.Server.{
  PeerConnectionMetadata, World, read_from, write_to, register_peer, read_ack, probe_found,
  probe_peer, doconnect_found, doconnect_peer, answer, process_register_frame, process_probe_frame,
  process_sync_frame, process_ping_frame, process_frame, process_connection, set_stream,
}

-- Only connection `i` runs.
abbrev pub Only : ℕ → ℕ → Type 0
Only i j = i ≡ j

module _ ⦃b : Bytes⦄ ⦃order : ByteOrder⦄ (dash : DashMap PeerId PeerConnectionMetadata)
    (ips : ℕ → IpAddr) where
  pub read_from-world :
      (j : ℕ) (buffer : List ℕ) (w : World dash)
      → (read_from dash j buffer w).1
        ≡ set_stream dash w j (record (w.streams j) {
          incoming = (read_frame_given_stream relay_frame buffer (w.streams j).incoming).1.incoming;
        })
  unfolding read_from
  read_from-world j buffer w =
      kept (read_frame_given_stream relay_frame buffer (w.streams j).incoming).0 _ _
    where
      kept :
          {A B : Type 0} (o : Outcome IoError A) (f : A → B) (v : World dash)
          → (continue o (λ a. pure {E = IoError} (f a)) v).1 ≡ v
      kept (ok a) f v = refl
      kept (err e) f v = refl
      kept panic f v = refl
      kept stuck f v = refl

  -- One thing that the task of connection `i` does, with a stream or with the cache; connection `i`
  -- comes from the address `ips i`. The tasks take turns between these. `waits` is a read that has only
  -- a part of a frame and goes on, and all that the network does meanwhile: it leaves any deliveries.
  pub data Act (i : ℕ) (w : World dash) : World dash → Type 0 where
    waits :
        (j : ℕ) (incoming : List Delivery)
        → Act i w (set_stream dash w j (record (w.streams j) { incoming = incoming }))
    reads : (j : ℕ) (buffer : List ℕ) → Act i w (read_from dash j buffer w).1
    writes : (j : ℕ) (f : PeerFrames) → Act i w (write_to dash j f w).1
    registers : (p : PeerId) → Act i w (register_peer dash p (ips i) i w).1

  -- What the tasks of some connections do in any order.
  pub data Reach (Runs : ℕ → Type 0) (w : World dash) : World dash → Type 0 where
    here : Reach Runs w w
    later : {v u : World dash} (i : ℕ) → Runs i → Reach Runs w v → Act i v u → Reach Runs w u

  module _ {Runs : ℕ → Type 0} where
    pub Reach-trans : {u v w : World dash} → Reach Runs u v → Reach Runs v w → Reach Runs u w
    Reach-trans r here = r
    Reach-trans r (later i runs s a) = later i runs (Reach-trans r s) a

    continue-Reach :
        {A B : Type 0} (o : Outcome IoError A) (f : A → Exec (World dash) IoError B)
        (w : World dash)
        → ((a : A) → Reach Runs w (f a w).1)
        → Reach Runs w (continue o f w).1
    continue-Reach (ok a) f w k = k a
    continue-Reach (err e) f w k = here
    continue-Reach panic f w k = here
    continue-Reach stuck f w k = here

    >>=-Reach :
        {A B : Type 0} (m : Exec (World dash) IoError A) (f : A → Exec (World dash) IoError B)
        (w : World dash)
        → Reach Runs w (m w).1
        → ((a : A) (v : World dash) → Reach Runs v (f a v).1)
        → Reach Runs w ((m >>= f) w).1
    >>=-Reach m f w r k = Reach-trans r (continue-Reach (m w).0 f (m w).1 (λ a. k a (m w).1))

  module _ (i : ℕ) where
    write_to-Reach :
        (j : ℕ) (f : PeerFrames) (w : World dash) → Reach (Only i) w (write_to dash j f w).1
    write_to-Reach j f w = later i refl here (writes j f)

    read_from-Reach :
        (j : ℕ) (buffer : List ℕ) (w : World dash) → Reach (Only i) w (read_from dash j buffer w).1
    read_from-Reach j buffer w = later i refl here (reads j buffer)

    answer-Reach :
        {A : Type 0} (o : Outcome IoError A) (good : A → PeerFrames) (bad : PeerFrames) (j : ℕ)
        (w : World dash)
        → Reach (Only i) w (answer dash o good bad j w).1
    unfolding answer
    answer-Reach (ok a) good bad j w = write_to-Reach j (good a) w
    answer-Reach (err e) good bad j w = write_to-Reach j bad w
    answer-Reach panic good bad j w = here
    answer-Reach stuck good bad j w = here

    probe_found-Reach :
        (o : Option PeerConnectionMetadata) (p : PeerId) (elapsed : Duration) (w : World dash)
        → Reach (Only i) w (probe_found dash o p elapsed w).1
    unfolding probe_found read_ack
    probe_found-Reach none p elapsed w = here
    probe_found-Reach (some m) p elapsed w =
        >>=-Reach (write_to dash m.stream (command sync)) _ w
          (write_to-Reach m.stream (command sync) w)
          λ done v.
            >>=-Reach (read_ack dash m.stream) _ v (read_from-Reach m.stream [] v) λ read u. here

    doconnect_found-Reach :
        (o : Option PeerConnectionMetadata) (ip : IpAddr) (w : World dash)
        → Reach (Only i) w (doconnect_found dash o ip w).1
    unfolding doconnect_found
    doconnect_found-Reach none ip w = here
    doconnect_found-Reach (some m) ip w = write_to-Reach m.stream (command (doconnect ip)) w

    process_frame-Reach :
        (f : RelayFrames) (elapsed : Duration) (w : World dash)
        → Reach (Only i) w (process_frame dash f i (ips i) elapsed w).1
    unfolding process_frame process_register_frame process_probe_frame process_sync_frame
        process_ping_frame probe_peer doconnect_peer
    process_frame-Reach (register p) elapsed w =
        Reach-trans (later i refl here (registers p)) (answer-Reach _ _ _ i _)
    process_frame-Reach (probe p) elapsed w =
        Reach-trans (probe_found-Reach (Cache.get dash w.conn_cache p) p elapsed w)
          (answer-Reach _ _ _ i _)
    process_frame-Reach (do_connect p) elapsed w =
        Reach-trans (doconnect_found-Reach (Cache.get dash w.conn_cache p) (ips i) w)
          (answer-Reach _ _ _ i _)
    process_frame-Reach ping elapsed w = write_to-Reach i _ w
    process_frame-Reach probe_ack elapsed w = here

    -- All that the loop of a connection does, whatever arrives, is to read and write frames on streams
    -- and to register peers by the stream and the address of its own connection.
    pub process_connection-Reach :
        (fuel : ℕ) (elapsed : ℕ → Duration) (buffer : List ℕ) (w : World dash)
        → Reach (Only i) w (process_connection dash fuel i (ips i) elapsed buffer w).1
    unfolding process_connection
    process_connection-Reach zero elapsed buffer w = here
    process_connection-Reach (suc fuel) elapsed buffer w =
        let (r, w1) = read_from dash i buffer w in
        Reach-trans (read_from-Reach i buffer w) (
          continue-Reach (unwrap r) _ w1
            λ read. round (process_connection-Reach fuel elapsed) read.0 read.1 w1)
      where
        round :
            ((buffer' : List ℕ) (v : World dash)
              → Reach (Only i) v (process_connection dash fuel i (ips i) elapsed buffer' v).1)
            → (frame : Option RelayFrames) (buffer' : List ℕ) (v : World dash)
            → Reach
                (Only i)
                v
                (elim frame as (λ _. Outcome IoError (Unit {0}) × World dash) [
                  | none ↦ (ok tt, v)
                  | some f ↦
                      continue
                        (process_frame dash f i (ips i) (elapsed fuel) v).0
                        (λ _ u. process_connection dash fuel i (ips i) elapsed buffer' u)
                        (process_frame dash f i (ips i) (elapsed fuel) v).1
                ]).1
        round rest none buffer' v = here
        round rest (some f) buffer' v =
            >>=-Reach (process_frame dash f i (ips i) (elapsed fuel)) _ v
              (process_frame-Reach f (elapsed fuel) v) λ done u. rest buffer' u
