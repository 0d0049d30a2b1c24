-- ===== src/Client/Pieces.antt =====
-- A file of any length, that the client reads in pieces of any size.
use pcopy.Prelude.{
  ℕ, ◌+◌, ◌^◌, ◌≤◌, ◌<◌, ◌≡◌, ◌∙◌, ap, arith, List, [], ◌++◌, length, append_assoc, append-nil,
  length-append, ltb_of_lt,
}
use mathlib.Core.Path.{ap₂}
use pcopy.Prelude.BigEndian.{to_be}
use pcopy.Prelude.Outcome.{ok}
use pcopy.Crates.Crc32.{Crc32}
use pcopy.Relay.Stream
use pcopy.Relay.Stream.{Stream, Delivery, chunk}
use pcopy.Relay.FrameHelper.Reading.{delivered}
use pcopy.Server.Request.Whole.{save_request}
use pcopy.Client.{get_length_as_u16_bytes, write_all, get_checksum_bytes, header, send_file}
use pcopy.Client.Whole.{length-header}
use pcopy.Client.Rest.{uploading, Onward, send_rest-Onward}
use pcopy.Client.FirstRead.{FirstRead, first_read, send_first_lem}

module _ (crc : Crc32) (p content : List ℕ) (header_fits : 11 + length p ≤ 1024)
    (fits : length content < 2 ^ 32) where
  abbrev file_header : List ℕ
  file_header = header crc (to_be 2 (length p)) p (length content)

  header-content :
      (m : ℕ)
      → (file_header ++ content) ++ to_be 4 m ≡ save_request p (get_checksum_bytes crc p) content m
  unfolding header
  header-content m = simp (append_assoc, append-nil)

  -- The client writes exactly the request that has the path, the content and their checksums, for a file
  -- of any length below 2 ^ 32 whose reads bring pieces of any size, where writing works and the header
  -- fits into the buffer of 1024 bytes. A read for each byte of the file and one more are enough.
  pub send_file_pieces :
      (fuel : ℕ) (cs : List (ℕ × List ℕ))
      → delivered cs ≡ content
      → length content < fuel
      → ((send_file crc fuel p (length content) (uploading [] cs [])).0 ≡ ok tt)
        × ((send_file crc fuel p (length content) (uploading [] cs [])).1.stream.outgoing
            ≡ save_request p (get_checksum_bytes crc p) content (get_checksum_bytes crc content))
  unfolding send_file get_length_as_u16_bytes write_all Stream.write_all get_checksum_bytes
  send_file_pieces fuel cs file enough =
      let low : length file_header ≤ 1024 = omega (arith, length-header crc p (length content)) in
      let f : FirstRead file_header cs = first_read file_header low cs in
      let first = send_first_lem file_header low crc cs f in
      let all : f.got ++ delivered f.left ≡ content = f.split ∙ file in
      let r : Onward crc fuel (crc.update crc.new f.got) (file_header ++ f.got) f.left
          (file_header ++ (f.got ++ f.behind)) =
        send_rest-Onward crc fuel (crc.update crc.new f.got) (file_header ++ f.got) f.left
          (file_header ++ (f.got ++ f.behind)) f.same_length
          (omega (arith, ap length all, length-append f.got (delivered f.left), enough)) in
      let path_fits = ltb_of_lt (length p) (2 ^ 16) (omega arith) in
      let file_fits = ltb_of_lt (length content) (2 ^ 32) fits in
      let digest : crc.finalize r.hasher' ≡ crc.finalize (crc.update crc.new content) =
        r.digest
        ∙ crc.update-update crc.new f.got (delivered f.left)
        ∙ ap (λ b. crc.finalize (crc.update crc.new b)) all in
      let whole : (file_header ++ f.got) ++ delivered f.left ≡ file_header ++ content =
        append_assoc file_header f.got (delivered f.left) ∙ ap (λ b. file_header ++ b) all in
      (
        rw (path_fits, file_fits, first, r.run),
        rw (path_fits, file_fits, first, r.run)
            (ap₂ (λ (b : List ℕ) (n : ℕ). b ++ to_be 4 n) whole digest ∙ header-content _),
      )
