-- ===== src/Server/Session/Fuel.antt =====
-- The fuel of the loop in front of a field is enough.
use pcopy.Prelude.{
  ℕ, zero, suc, ◌+◌, ◌-◌, ◌≤◌, arith, List, [], ◌∷◌, length, ltb, ltb_of_le, ◌==◌, Bool-cases, inl,
  inr,
}
use pcopy.Prelude.Outcome.{Outcome, ok, err, panic, stuck, Ends, unwrap-Ends}
use pcopy.Prelude.Exec.{>>=-Ends}
use pcopy.Rust.IoError.{IoError}
use pcopy.Relay.Stream.{Delivery, chunk, broken}
use pcopy.Server.Reader.{ReadFromStream, tcp_read}
use pcopy.Server.Session.{Session, checked_sub, store, read_data, fill}

pub tcp_read-Ends : (t : List Delivery) (buf : List ℕ) (i : ℕ) → Ends (tcp_read t buf i)
unfolding tcp_read
tcp_read-Ends [] buf i = elim (Bool-cases (ltb (length buf) i)) [
  | inl outside ↦ rw outside tt
  | inr inside ↦ rw inside tt
]
tcp_read-Ends (chunk bytes ∷ more) buf i = elim (Bool-cases (ltb (length buf) i)) [
  | inl outside ↦ rw outside tt
  | inr inside ↦ rw inside tt
]
tcp_read-Ends (broken e ∷ more) buf i = elim (Bool-cases (ltb (length buf) i)) [
  | inl outside ↦ rw outside tt
  | inr inside ↦ rw inside tt
]

module _ {T : Type 0} where
  store-Ends : (s : Session T) (r : Outcome IoError (ℕ × List ℕ × T)) → Ends r → Ends (store s r).0
  unfolding store
  store-Ends s (ok (n, buf, socket)) h = tt
  store-Ends s (err e) h = tt
  store-Ends s panic h = tt
  store-Ends s stuck h = h

  module _ ⦃reader : ReadFromStream T⦄
      (reads : (t : T) (buf : List ℕ) (i : ℕ) → Ends (reader.read_data t buf i)) where
    pub read_data-Ends : (end : ℕ) (s : Session T) → Ends (read_data end s).0
    unfolding read_data
    read_data-Ends end s =
        store-Ends s _
          (unwrap-Ends IoError (reader.read_data s.socket s.buf end) (reads s.socket s.buf end))

    -- The loop in front of a field comes to an end, whatever the reader delivers, when its fuel and the
    -- bytes that are there make up the bytes that it needs.
    pub fill-Ends :
        (fuel need end start : ℕ) (s : Session T)
        → need ≤ fuel + (end - start)
        → Ends (fill fuel need end start s).0
    unfolding fill checked_sub
    fill-Ends zero need end start s h = elim (Bool-cases (ltb end start)) [
      | inl below ↦ rw below tt
      | inr above ↦ rw (above, ltb_of_le (end - start) need (omega arith)) tt
    ]
    fill-Ends (suc fuel) need end start s h = elim (Bool-cases (ltb end start)) [
      | inl below ↦ rw below tt
      | inr above ↦ elim (Bool-cases (ltb (end - start) need)) [
        | inr there ↦ rw (above, there) tt
        | inl missing ↦
            rw (above, missing)
              (>>=-Ends (read_data end) _ s (read_data-Ends end s) λ n read.
                elim (Bool-cases (n == 0)) [
                  | inl nothing ↦ rw nothing tt
                  | inr some_bytes ↦
                      rw some_bytes
                        (fill-Ends fuel need (end + n) start (read_data end s).1 (ground arith))
                ])
      ]
    ]
