-- ===== src/Main.antt =====
-- main.rs: what the command line asks for.
pub mod Ports
use pcopy.Prelude.{ℕ, ◌≡◌, Bool, true, false, List, [], ◌∷◌, All, ◌<◌, ◌==◌, ◌&&◌, if◌then◌else◌}
use pcopy.Prelude.Outcome.{Outcome, ok, panic}
use pcopy.Rust.IoError.{IoError}
use pcopy.Rust.Text.{same_text, Lowercase}
use pcopy.Client.Folder
use pcopy.Client.Folder.{Client}
use pcopy.Server.Address
use pcopy.Server.Address.{Server}

-- What `main` goes on to do. A `print!` tells the user how to call the program.
pub data Action : Type 0 where
  print_roles : Action
  print_path : Action
  print_ip : Action
  print_choice : Action
  send_folder : Client → List ℕ → Action
  run : Server → Action
  -- The relay server is not started: the lines that would are comments.
  nothing : Action

-- "client", "server" and "relay"
abbrev pub client_role : List ℕ
client_role = b'c' ∷ b'l' ∷ b'i' ∷ b'e' ∷ b'n' ∷ b't' ∷ []

abbrev pub server_role : List ℕ
server_role = b's' ∷ b'e' ∷ b'r' ∷ b'v' ∷ b'e' ∷ b'r' ∷ []

abbrev pub relay_role : List ℕ
relay_role = b'r' ∷ b'e' ∷ b'l' ∷ b'a' ∷ b'y' ∷ []

module _ ⦃text : Lowercase⦄ where
  -- The arguments behind the role of the client.
  unfoldable pub as_client : List (List ℕ) → Action
  as_client [] = print_path
  as_client (path ∷ []) = print_ip
  as_client (path ∷ server_ip ∷ more) = send_folder (Folder.init server_ip 8888) path

  -- `local_ip().unwrap()`, and then what is done with the address.
  unfoldable pub with_ip : Outcome IoError (List ℕ) → (List ℕ → Action) → Outcome IoError Action
  with_ip (ok ip) f = ok (f ip)
  with_ip _ f = panic

  unfoldable pub choose : List ℕ → List (List ℕ) → Outcome IoError (List ℕ) → Outcome IoError Action
  unfolding as_client with_ip
  choose run_as more local_ip =
      let role = text.to_lowercase run_as in
      if same_text role client_role
      then ok (as_client more)
      else if same_text role server_role
      then with_ip local_ip (λ ip. run (Address.init ip 9999))
      else if same_text role relay_role
      then with_ip local_ip (λ ip. nothing)
      else ok print_choice

  -- The first argument is the name of the program. `local_ip` is what the system says of its address.
  unfoldable pub main : List (List ℕ) → Outcome IoError (List ℕ) → Outcome IoError Action
  unfolding choose
  main [] local_ip = ok print_roles
  main (program ∷ []) local_ip = ok print_roles
  main (program ∷ run_as ∷ more) local_ip = choose run_as more local_ip
