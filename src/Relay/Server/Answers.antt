-- ===== src/Relay/Server/Answers.antt =====
-- What a frame makes the relay send, on every branch of its handler.
use pcopy.Prelude.{
  ℕ, List, [], ◌∷◌, ◌++◌, ◌≡◌, refl, sym, ap, ◌∙◌, append-nil, append_assoc, ◌==◌, Bool-cases,
  arith, inl, inr, Option, none, some, if◌then◌else◌,
}
use pcopy.Prelude.Outcome.{Outcome, ok, err, panic, stuck}
use pcopy.Rust.IoError.{IoError, invalid_data}
use pcopy.Rust.IpAddr.{IpAddr}
use pcopy.Rust.Duration.{Duration}
use pcopy.Crates.Bytes.{Bytes}
use pcopy.Crates.ByteOrder.{ByteOrder}
use pcopy.Crates.DashMap.{DashMap}
use pcopy.Relay.PeerId.{PeerId}
use pcopy.Relay.PeerInfo.{PeerInfo}
use pcopy.Relay.HealthStatus.{HealthStatus}
use pcopy.Relay.StatusCodes.{success, failure}
use pcopy.Relay.PeerCommands.{sync, doconnect}
use pcopy.Relay.FrameHelper.{read_frame_given_stream}
use pcopy.Relay.RelayFrames.{RelayFrames, register, probe, do_connect, ping, probe_ack}
use pcopy.Relay.RelayFrames.Trait.{relay_frame}
use pcopy.Relay.PeerFrames.{
  PeerFrames, register_result, probe_result, do_connect_result, ping_result, command,
}
use pcopy.Relay.PeerFrames.Trait.{peer_frame}
use pcopy.Relay.Server.{PeerConnectionMetadata, World, write_to, set_stream}
use pcopy.Relay.Server.Peers.{sent, write_ok}

-- The frames that went out, each with its stream, in the order in which they were written.
abbrev pub Log : Type 0
Log = List (ℕ × PeerFrames)

-- What the asker is told when the peer did what SYNC asks for: only ProbeAck is an answer.
abbrev pub told : Option RelayFrames → PeerInfo → PeerFrames
told (some probe_ack) info = probe_result (some info)
told (some f) info = probe_result none
told none info = probe_result none

-- A probe of a peer in the cache, by what the peer sends next.
abbrev pub asked :
    ℕ → PeerInfo → ℕ → Outcome IoError (Option RelayFrames) → Outcome IoError (Unit {0}) × Log
asked id info peer (ok o) = (ok tt, (peer, command sync) ∷ (id, told o info) ∷ [])
asked id info peer (err e) = (panic, (peer, command sync) ∷ [])
asked id info peer panic = (panic, (peer, command sync) ∷ [])
asked id info peer stuck = (stuck, (peer, command sync) ∷ [])

-- What a frame on stream `id` leads to: how its handler ends, and what goes out on which stream, by
-- what the cache has of the peer, and by what the peer sends next.
abbrev pub handled :
    (ℕ → Outcome IoError (Option RelayFrames))
    → HealthStatus
    → Duration
    → ℕ
    → IpAddr
    → RelayFrames
    → Option PeerConnectionMetadata
    → Outcome IoError (Unit {0}) × Log
handled next state elapsed id source_ip (register p) none = (panic, [])
handled next state elapsed id source_ip (register p) (some m) =
    (ok tt, (id, register_result success) ∷ [])
handled next state elapsed id source_ip (probe p) none = (ok tt, (id, probe_result none) ∷ [])
handled next state elapsed id source_ip (probe p) (some m) =
    asked id (record { peer_id = p; ip = m.ip_addr; ping_rtt = elapsed }) m.stream (next m.stream)
handled next state elapsed id source_ip (do_connect p) none =
    (ok tt, (id, do_connect_result failure) ∷ [])
handled next state elapsed id source_ip (do_connect p) (some m) =
    (ok tt, (m.stream, command (doconnect source_ip)) ∷ (id, do_connect_result success) ∷ [])
handled next state elapsed id source_ip ping o = (ok tt, (id, ping_result state) ∷ [])
handled next state elapsed id source_ip probe_ack o = (err invalid_data, [])

-- The peer that a frame is about.
abbrev pub subject : RelayFrames → Option PeerId
subject (register p) = some p
subject (probe p) = some p
subject (do_connect p) = some p
subject ping = none
subject probe_ack = none

module _ ⦃b : Bytes⦄ ⦃order : ByteOrder⦄ where
  -- The bytes of a log that went out on stream `j`.
  unfoldable pub bytes_on : ℕ → Log → List ℕ
  bytes_on j [] = []
  bytes_on j ((i, f) ∷ log) =
      let rest = bytes_on j log in if j == i then peer_frame.to_be_bytes f ++ rest else rest

  bytes_on-append : (j : ℕ) (l m : Log) → bytes_on j (l ++ m) ≡ bytes_on j l ++ bytes_on j m
  unfolding bytes_on
  bytes_on-append j [] m = refl
  bytes_on-append j ((i, f) ∷ l) m = elim (Bool-cases (j == i)) [
    | inl same ↦ rw (same, bytes_on-append j l m, append_assoc)
    | inr differ ↦ rw (differ, bytes_on-append j l m)
  ]

  module _ (dash : DashMap PeerId PeerConnectionMetadata) where
    -- The world `v` is `w` behind the writes of a log; writing works on all streams.
    pub record Wrote (w : World dash) (log : Log) (v : World dash) : Type 0 where
      pub works : (j : ℕ) → (v.streams j).sendings ≡ []
      pub bytes : (j : ℕ) → (v.streams j).outgoing ≡ (w.streams j).outgoing ++ bytes_on j log

    Wrote-trans : {u v w : World dash} (l m : Log) → Wrote u l v → Wrote v m w → Wrote u (l ++ m) w
    Wrote-trans l m r s = record {
      works = s.works;
      bytes = λ j. s.bytes j ∙ rw (r.bytes j, append_assoc, bytes_on-append);
    }

    pub nothing : (w : World dash) → ((j : ℕ) → (w.streams j).sendings ≡ []) → Wrote w [] w
    unfolding bytes_on
    nothing w quiet = record { works = quiet; bytes = λ j. sym (append-nil _) }

    write_to-Wrote :
        (i : ℕ) (f : PeerFrames) (w : World dash)
        → ((j : ℕ) → (w.streams j).sendings ≡ [])
        → Wrote w ((i, f) ∷ []) (set_stream dash w i (sent (w.streams i) f))
    unfolding set_stream bytes_on
    write_to-Wrote i f w quiet = record {
      works = λ j. elim (Bool-cases (j == i)) [
        | inl same ↦ rw same refl
        | inr differ ↦ rw differ (quiet j)
      ];
      bytes = λ j. elim (Bool-cases (j == i)) [
        | inl same ↦
            let it : j ≡ i = ground arith in
            rw same (
              rw append-nil (ap (λ k. (w.streams k).outgoing ++ peer_frame.to_be_bytes f) (sym it)))
        | inr differ ↦ rw differ (sym (append-nil _))
      ];
    }

    pub write_to-run :
        (i : ℕ) (f : PeerFrames) (u w : World dash) (l : Log)
        → Wrote u l w
        → (write_to dash i f w ≡ (ok tt, set_stream dash w i (sent (w.streams i) f)))
          × Wrote u (l ++ (i, f) ∷ []) (set_stream dash w i (sent (w.streams i) f))
    write_to-run i f u w l r = (
      write_ok dash i w f (r.works i),
      Wrote-trans l ((i, f) ∷ []) r (write_to-Wrote i f w r.works),
    )

    -- How a handler ends, and what it has sent.
    abbrev pub Sends :
        World dash
        → Outcome IoError (Unit {0}) × Log
        → Outcome IoError (Unit {0}) × World dash
        → Type 0
    Sends w e r = (r.0 ≡ e.0) × Wrote w e.1 r.1

    pub one_write :
        (i : ℕ) (f : PeerFrames) (u w : World dash) (l : Log)
        → Wrote u l w
        → Sends u (ok tt, l ++ (i, f) ∷ []) (write_to dash i f w)
    one_write i f u w l r = let (run, wrote) = write_to-run i f u w l r in rw run (refl, wrote)

    pub read_from-Wrote :
        (j : ℕ) (buffer : List ℕ) (w : World dash) (v : World dash) (l : Log)
        → Wrote w l v
        → Wrote w l (
            set_stream dash v j (record (v.streams j) {
              incoming =
                  (read_frame_given_stream relay_frame buffer (v.streams j).incoming).1.incoming;
            }))
    unfolding set_stream
    read_from-Wrote j buffer w v l r = record {
      works = λ i. elim (Bool-cases (i == j)) [
        | inl same ↦ rw same (r.works j)
        | inr differ ↦ rw differ (r.works i)
      ];
      bytes = λ i. elim (Bool-cases (i == j)) [
        | inl same ↦ let it : j ≡ i = ground arith in rw same (rw (← it) (r.bytes j))
        | inr differ ↦ rw differ (r.bytes i)
      ];
    }
