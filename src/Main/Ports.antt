-- ===== src/Main/Ports.antt =====
-- The ports of client and server.
use pcopy.Prelude.{
  ℕ, ◌≡◌, ◌≢◌, refl, arith, List, [], ◌∷◌, ◌++◌, length, append_cut, Bool-cases, inl, inr,
}
use pcopy.Prelude.Outcome.{Outcome, ok, err, panic, stuck}
use pcopy.Rust.IoError.{IoError}
use pcopy.Rust.Text.{Lowercase, same_text, colon, decimal, digits}
use pcopy.Client.Folder
use pcopy.Client.Folder.{Client}
use pcopy.Server.Address
use pcopy.Server.Address.{Server}
use pcopy.Main.{
  Action, send_folder, run, nothing, main, choose, as_client, with_ip, client_role, server_role,
  relay_role,
}

-- The ports of what `main` starts.
IsOnPorts : Outcome IoError Action → Type 0
IsOnPorts (ok (send_folder c path)) = c.server_port ≡ 8888
IsOnPorts (ok (run s)) = s.port ≡ 9999
IsOnPorts _ = Unit

tails : decimal 8888 ≢ decimal 9999
unfolding decimal digits
tails e = let first : ◌≡◌ {A = ℕ} b'8' b'9' = cc in absurd (omega (arith, first))

same_size : length (decimal 8888) ≡ length (decimal 9999)
unfolding decimal digits
same_size = refl

differ :
    (c : Client) (s : Server)
    → c.server_port ≡ 8888
    → s.port ≡ 9999
    → Folder.server_address c ≢ Address.server_address s
unfolding Folder.server_address Address.server_address
differ c s p q e =
    let (front, tail) =
      append_cut (c.server_ip ++ colon ∷ []) (decimal 8888) (s.ip ++ colon ∷ []) (decimal 9999)
        (rw (p, q) at e) same_size in
    tails tail

module _ ⦃text : Lowercase⦄ where
  as_client-IsOnPorts : (more : List (List ℕ)) → IsOnPorts (ok (as_client more))
  unfolding as_client Folder.init IsOnPorts
  as_client-IsOnPorts [] = tt
  as_client-IsOnPorts (path ∷ []) = tt
  as_client-IsOnPorts (path ∷ ip ∷ more) = refl

  serves-IsOnPorts :
      (o : Outcome IoError (List ℕ)) → IsOnPorts (with_ip o (λ ip. run (Address.init ip 9999)))
  unfolding with_ip Address.init IsOnPorts
  serves-IsOnPorts (ok ip) = refl
  serves-IsOnPorts (err e) = tt
  serves-IsOnPorts panic = tt
  serves-IsOnPorts stuck = tt

  relays-IsOnPorts : (o : Outcome IoError (List ℕ)) → IsOnPorts (with_ip o (λ ip. nothing))
  unfolding with_ip IsOnPorts
  relays-IsOnPorts (ok ip) = tt
  relays-IsOnPorts (err e) = tt
  relays-IsOnPorts panic = tt
  relays-IsOnPorts stuck = tt

  choose-IsOnPorts :
      (run_as : List ℕ) (more : List (List ℕ)) (o : Outcome IoError (List ℕ))
      → IsOnPorts (choose run_as more o)
  unfolding choose
  choose-IsOnPorts run_as more o =
      let role = text.to_lowercase run_as in
      elim (Bool-cases (same_text role client_role)) [
        | inl c ↦ rw c (as_client-IsOnPorts more)
        | inr c ↦ elim (Bool-cases (same_text role server_role)) [
          | inl s ↦ rw (c, s) (serves-IsOnPorts o)
          | inr s ↦ elim (Bool-cases (same_text role relay_role)) [
            | inl r ↦ rw (c, s, r) (relays-IsOnPorts o)
            | inr r ↦ rw (c, s, r) (unfold IsOnPorts in tt)
          ]
        ]
      ]

  main-IsOnPorts : (args : List (List ℕ)) (o : Outcome IoError (List ℕ)) → IsOnPorts (main args o)
  unfolding main IsOnPorts
  main-IsOnPorts [] o = tt
  main-IsOnPorts (program ∷ []) o = tt
  main-IsOnPorts (program ∷ run_as ∷ more) o = choose-IsOnPorts run_as more o

  -- The address to which a client connects is never the one on which a server listens, whatever the two
  -- are called with and whatever their machines' addresses are: the client takes port 8888 and the server
  -- port 9999.
  pub addresses_differ :
      (args args' : List (List ℕ)) (o o' : Outcome IoError (List ℕ)) (c : Client) (path : List ℕ)
      (s : Server)
      → main args o ≡ ok (send_folder c path)
      → main args' o' ≡ ok (run s)
      → (c.server_port ≡ 8888)
        × (s.port ≡ 9999)
        × (Folder.server_address c ≢ Address.server_address s)
  unfolding IsOnPorts
  addresses_differ args args' o o' c path s sends runs =
      let p : c.server_port ≡ 8888 = rw sends at (main-IsOnPorts args o) in
      let q : s.port ≡ 9999 = rw runs at (main-IsOnPorts args' o') in (p, q, differ c s p q)
