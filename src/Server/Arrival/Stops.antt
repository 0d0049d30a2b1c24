-- ===== src/Server/Arrival/Stops.antt =====
-- What the loop that receives a file leaves, when the bytes behind the content may come with its end.
use pcopy.Prelude.{ℕ, ◌≡◌, ◌∙◌, ◌⊎◌, ap, List, [], ◌∷◌, ◌++◌, length, append_assoc, inl, inr}
use pcopy.Prelude.Outcome.{Outcome, ok, panic}
use pcopy.Rust.IoError.{IoError}
use pcopy.Rust.Disk.{Effect, wrote}
use pcopy.Crates.Crc32.{Crc32}
use pcopy.Relay.Stream.{Delivery}
use pcopy.Server.Reader.{tcp_stream}
use pcopy.Server.Session.{Session}
use pcopy.Server.File.{Receiving}
use pcopy.Server.Arrival.{At}
use pcopy.Server.Arrival.Pieces.{writes, joined}

module _ (crc : Crc32) where
  abbrev pub Run : Type 0
  Run = Outcome IoError (Receiving crc.Hasher) × Session (List Delivery)

  -- The loop has all of the content, and stands in front of `tail`.
  pub record Passed (run : Run) (h : crc.Hasher) (buf : List ℕ) (socket : List Delivery)
      (effects : List Effect) (later : List Delivery) (todo tail : List ℕ) : Type 0 where
    pub start : ℕ
    pub end : ℕ
    pub hasher' : crc.Hasher
    pub runs : run ≡ (
      ok (record { end_index = end; start_index = start; file_data_length = 0; hasher = hasher' }),
      record { socket = socket; buf = buf; effects = effects },
    )
    pub digest : crc.finalize hasher' ≡ crc.finalize (crc.update h todo)
    pub same_length : length buf ≡ 1024
    pub then_at : At buf socket start end later tail

  -- The content is written, and the loop passes or panics.
  pub record Stops (run : Run) (h : crc.Hasher) (effects : List Effect) (later : List Delivery)
      (todo tail : List ℕ) : Type 0 where
    pub pieces : List (List ℕ)
    pub buf' : List ℕ
    pub socket' : List Delivery
    pub content : joined pieces ≡ todo
    pub ends :
        Passed run h buf' socket' (effects ++ writes pieces) later todo tail
        ⊎ (run
            ≡ (panic, record { socket = socket'; buf = buf'; effects = effects ++ writes pieces }))

  -- A piece in front of what stops.
  pub Stops-more :
      (run run' : Run) (h : crc.Hasher) (effects : List Effect) (later : List Delivery)
      (got rest todo tail : List ℕ)
      → run ≡ run'
      → got ++ rest ≡ todo
      → Stops run' (crc.update h got) (effects ++ wrote got ∷ []) later rest tail
      → Stops run h effects later todo tail
  Stops-more run run' h effects later got rest todo tail e split r =
      let all : (effects ++ wrote got ∷ []) ++ writes r.pieces
          ≡ effects ++ writes (got ∷ r.pieces) =
        append_assoc effects (wrote got ∷ []) (writes r.pieces) in
      record {
        pieces = got ∷ r.pieces;
        buf' = r.buf';
        socket' = r.socket';
        content = ap (λ t. got ++ t) r.content ∙ split;
        ends = elim r.ends [
          | inl p ↦ inl (record {
            start = p.start;
            end = p.end;
            hasher' = p.hasher';
            runs =
                e
                ∙ p.runs
                ∙ ap
                    (λ (es : List Effect). (
                      ok (record {
                        end_index = p.end;
                        start_index = p.start;
                        file_data_length = 0;
                        hasher = p.hasher';
                      }),
                      record { socket = r.socket'; buf = r.buf'; effects = es },
                    ))
                    all;
            digest =
                p.digest
                ∙ crc.update-update h got rest
                ∙ ap (λ t. crc.finalize (crc.update h t)) split;
            same_length = p.same_length;
            then_at = p.then_at;
          })
          | inr q ↦ inr (
              e
              ∙ q
              ∙ ap
                  (λ (es : List Effect).
                    (panic, record { socket = r.socket'; buf = r.buf'; effects = es }))
                  all)
        ];
      }
