-- ===== src/Server/Bounds/Request.antt =====
-- A whole connection comes to its end.
use pcopy.Prelude.{
  ℕ, ◌+◌, ◌≤◌, ◌≡◌, refl, arith, List, [], length, replicate, length-replicate, ◌==◌, Bool-cases,
  inl, inr, Option, none, some, ◌⊎◌, if◌then◌else◌,
}
use pcopy.Prelude.Outcome.{Outcome, ok, err, panic, stuck, Ends}
use pcopy.Rust.IoError.{IoError}
use pcopy.Rust.Path.{Paths}
use pcopy.Rust.Disk.{Disk}
use pcopy.Crates.ByteOrder.{ByteOrder}
use pcopy.Crates.Crc32.{Crc32}
use pcopy.Relay.Stream.{Delivery}
use pcopy.Server.Reader.{tcp_stream}
use pcopy.Server.Session.{Session, read_data}
use pcopy.Server.Request.{
  folder_reply, file_reply, first_byte, dispatch, serve, create_parent_folder_op, save_file_op,
  ok_reply, error_reply,
}
use pcopy.Server.Bounds.{Result, Sound, >>=-Sound, read_data-Sound}
use pcopy.Server.Bounds.Folder.{create_parent_folder-Sound}
use pcopy.Server.Bounds.File.{save_file-Sound}

-- What the server answers: OK, ERROR or nothing.
abbrev pub Reply : List ℕ → Type 0
Reply bytes = (bytes ≡ ok_reply) ⊎ (bytes ≡ error_reply) ⊎ (bytes ≡ [])

module _ {A : Type 0} (Q : A → Type 0) where
  folder_reply-Reply : (o : Outcome IoError A) → Result Q o → Result Reply (folder_reply o)
  unfolding folder_reply
  folder_reply-Reply (ok a) h = inl refl
  folder_reply-Reply (err e) h = inr (inr refl)
  folder_reply-Reply panic h = tt
  folder_reply-Reply stuck h = h

  file_reply-Reply : (o : Outcome IoError A) → Result Q o → Result Reply (file_reply o)
  unfolding file_reply
  file_reply-Reply (ok a) h = inl refl
  file_reply-Reply (err e) h = inr (inl refl)
  file_reply-Reply panic h = tt
  file_reply-Reply stuck h = h

module _ ⦃order : ByteOrder⦄ ⦃paths : Paths⦄ (crc : Crc32) (disk : Disk) (root : List ℕ)
    (answers : (bytes : List ℕ) → Ends (disk.write bytes)) where
  dispatch-Sound :
      (op : Option ℕ) (n : ℕ) (s : Session (List Delivery))
      → length s.buf ≡ 1024
      → n ≤ 1024
      → Sound 1024 Reply (dispatch crc disk root op n s)
  unfolding dispatch
  dispatch-Sound none n s same room = (tt, same)
  dispatch-Sound (some op) n s same room = elim (Bool-cases (op == create_parent_folder_op)) [
    | inl folder ↦
        let (ordered, kept) = create_parent_folder-Sound crc disk root 1024 n 1 s same room in
        rw folder (folder_reply-Reply _ _ ordered, kept)
    | inr other ↦ elim (Bool-cases (op == save_file_op)) [
      | inl file ↦
          let (ordered, kept) =
            save_file-Sound crc disk root 1024 answers n 1 s same (omega arith) room in
          rw (other, file) (file_reply-Reply _ _ ordered, kept)
      | inr nothing ↦ rw (other, nothing) (inr (inr refl), same)
    ]
  ]

  -- A connection comes to its end, whatever arrives on it, in whatever pieces, and whatever the disk
  -- answers, as long as its `write` comes back: the fuel of the model is never short. Then the server has a panic or has answered OK, ERROR
  -- or nothing, and its buffer has 1024 bytes still.
  pub serve-Sound :
      (socket : List Delivery)
      → Result Reply (serve crc disk root socket).0
        × (length (serve crc disk root socket).1.buf ≡ 1024)
  unfolding serve
  serve-Sound socket =
      let s : Session (List Delivery) = record {
        socket = socket;
        buf = replicate 1024 0;
        effects = [];
      } in
      let start : length s.buf ≡ 1024 = length-replicate {A = ℕ} 1024 0 in
      >>=-Sound 1024 (λ n. 0 + n ≤ 1024) Reply (read_data 0)
        (λ n s2.
          if n == 0 then (ok error_reply, s2) else dispatch crc disk root (first_byte s2.buf) n s2)
        s (rw start at (read_data-Sound 0 s))
        λ n t low kept. elim (Bool-cases (n == 0)) [
          | inl nothing ↦ rw nothing (inr (inl refl), kept)
          | inr some_bytes ↦
              rw some_bytes (dispatch-Sound (first_byte t.buf) n t kept (omega (arith, low)))
        ]
