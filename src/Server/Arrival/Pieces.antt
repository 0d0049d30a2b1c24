-- ===== src/Server/Arrival/Pieces.antt =====
-- The content of a file in pieces: where the server stands behind them and what it writes.
use pcopy.Prelude.{
  ℕ, ◌+◌, ◌-◌, ◌%◌, ◌≤◌, ◌<◌, ◌≡◌, refl, arith, List, [], ◌∷◌, ◌++◌, length, drop, ◌==◌, Bool-cases,
  inl, inr, if◌then◌else◌,
}
use pcopy.Rust.Disk.{Effect, wrote}
use pcopy.Relay.Stream.{Delivery}
use pcopy.Relay.FrameHelper.Reading.{delivered}
use pcopy.Server.Reader.{tcp_stream}
use pcopy.Server.File.{Receiving}
use pcopy.Server.Arrival.{At}

-- The index at which the server stands behind `t` bytes that are read from index `i` on: the buffer has
-- 1024 bytes and is filled again from its front when it is used up.
abbrev pub place : ℕ → ℕ → ℕ
place i t = if t == 0 then i else (i + t - 1) % 1024 + 1

-- Writes to the file, piece by piece, and what they write in total.
abbrev pub writes : List (List ℕ) → List Effect
writes [] = []
writes (bytes ∷ more) = wrote bytes ∷ writes more

abbrev pub joined : List (List ℕ) → List ℕ
joined [] = []
joined (bytes ∷ more) = bytes ++ joined more

-- What is in the buffer of a request that is all used up.
pub At-used :
    (buf : List ℕ) (socket : List Delivery) (i : ℕ) (later : List Delivery) (todo : List ℕ)
    → At buf socket i i later todo
    → At buf socket 0 0 later todo
At-used buf socket i later todo a = record {
  avail = [];
  behind = buf;
  coming = a.coming;
  in_buffer = refl;
  size = omega arith;
  room = omega arith;
  on_socket = a.on_socket;
  bytes = used a.avail a.bytes (omega (arith, a.size));
}
  where
    used :
        (avail : List ℕ)
        → avail ++ delivered a.coming ≡ todo
        → length avail ≡ 0
        → delivered a.coming ≡ todo
    used [] e h = e
    used (x ∷ avail) e h = absurd (omega arith)

-- The bytes that are in the buffer, and the state behind them.
pub record Front (buf : List ℕ) (socket : List Delivery) (start end : ℕ) (later : List Delivery)
    (todo : List ℕ) : Type 0 where
  pub got : List ℕ
  pub rest : List ℕ
  pub behind : List ℕ
  pub here : drop start buf ≡ got ++ behind
  pub size : start + length got ≡ end
  pub split : got ++ rest ≡ todo
  pub then_at : At buf socket end end later rest

pub At-Front :
    (buf : List ℕ) (socket : List Delivery) (start end : ℕ) (later : List Delivery) (todo : List ℕ)
    → At buf socket start end later todo
    → Front buf socket start end later todo
At-Front buf socket start end later todo a = record {
  got = a.avail;
  rest = delivered a.coming;
  behind = a.behind;
  here = a.in_buffer;
  size = a.size;
  split = a.bytes;
  then_at = record {
    avail = [];
    behind = drop end buf;
    coming = a.coming;
    in_buffer = refl;
    size = omega arith;
    room = a.room;
    on_socket = a.on_socket;
    bytes = refl;
  };
}

-- Where the server reads next, when it has used up what was read to index `i`.
abbrev pub front_of : ℕ → ℕ
front_of i = if i == 1024 then 0 else i

pub place_step :
    (i n rest all : ℕ)
    → i ≤ 1024
    → 0 < n
    → front_of i + n ≤ 1024
    → all ≡ n + rest
    → place (front_of i + n) rest ≡ place i all
place_step i n rest all low pos room e = ground arith

pub At-front_of :
    (buf : List ℕ) (socket : List Delivery) (i : ℕ) (later : List Delivery) (todo : List ℕ)
    → At buf socket i i later todo
    → At buf socket (front_of i) (front_of i) later todo
At-front_of buf socket i later todo a = elim (Bool-cases (i == 1024)) [
  | inl full ↦ rw full (At-used buf socket i later todo a)
  | inr partial ↦ rw partial a
]

-- All that was read is used up, and `left` bytes of the file are to come.
abbrev pub standing : {H : Type 0} → ℕ → ℕ → H → Receiving H
standing i left h = record { end_index = i; start_index = i; file_data_length = left; hasher = h }

-- What is in the buffer of the content, and the rest of it.
pub place_front :
    (start got rest end all : ℕ)
    → start + got ≡ end
    → end ≤ 1024
    → all ≡ got + rest
    → place end rest ≡ place start all
place_front start got rest end all e low t = ground arith
