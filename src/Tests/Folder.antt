-- ===== src/Tests/Folder.antt =====
-- A folder that is sent, and what the command line starts.
use pcopy.Prelude.{ℕ, ◌≡◌, ◌≢◌, refl, arith, List, [], ◌∷◌, true, false, some, none, Option}
use pcopy.Prelude.Outcome.{Outcome, ok}
use pcopy.Rust.IoError.{IoError}
use pcopy.Rust.Text.{Lowercase}
use pcopy.Client.{Upload}
use pcopy.Client.Rest.{uploading}
use pcopy.Client.Folder
use pcopy.Client.Folder.{
  Client, Entry, Source, folder, unreadable, file, no_more, send_folder, requests,
  send_folder_readable,
}
use pcopy.Server.Address
use pcopy.Server.Address.{Server}
use pcopy.Main.{main, client_role, server_role}
use pcopy.Main.Ports.{addresses_differ}
use pcopy.Tests.Instances.{sum}
use pcopy.Tests.Folders.{root, inside}

-- Every file has the one byte 7.
abbrev connect : List ℕ → List ℕ → Outcome IoError (ℕ × Upload)
connect address path = ok (1, uploading [] ((7, []) ∷ []) [])

abbrev client : Client
client = record { server_ip = root; server_port = 8888 }

-- A folder, an entry that cannot be read, and a file.
abbrev entries : List (Option Entry)
entries =
    some (record { path = root; is_dir = true })
    ∷ none
    ∷ some (record { path = inside; is_dir = false })
    ∷ []

abbrev sources : List Source
sources = record { path = inside; pieces = (7, []) ∷ [] } ∷ []

send_folder_readable_example :
    send_folder sum connect 2 client entries [] ≡ (ok tt, requests sum connect 2 client sources)
unfolding Folder.files
send_folder_readable_example =
    send_folder_readable sum connect 2 client entries sources
      (folder root (unreadable (file (record { path = inside; pieces = (7, []) ∷ [] }) no_more)))
      ((refl, omega arith, omega arith, omega arith), tt)

instance abbrev as_it_is : Lowercase
as_it_is = record { to_lowercase = λ text. text }

abbrev server : Server
server = record { ip = root; port = 9999 }

addresses_differ_example :
    (client.server_port ≡ 8888)
    × (server.port ≡ 9999)
    × (Folder.server_address client ≢ Address.server_address server)
unfolding main pcopy.Rust.Text.same_text Folder.init Address.init
addresses_differ_example =
    addresses_differ ([] ∷ client_role ∷ inside ∷ root ∷ []) ([] ∷ server_role ∷ []) (ok root)
      (ok root) client inside server refl refl
