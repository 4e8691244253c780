-- ===== src/Tests/Cli.antt =====
-- A command line, the rows of the window and its buttons, at which the theorems on cmd/tunelc apply.
use tunel.Prelude.{
  ◌≡◌, ◌≢◌, inl, refl, true, false, List, [], ◌∷◌, Str, ℤ, pos, codes, some, arith, nat_eq, ℕ,
  str_eq, decimal,
}
use tunel.Prelude.Map.{get}
use tunel.Config.Profile.{TunnelEntry, Unmarshal, missing}
use tunel.Client.Spec.{Config}
use tunel.Client.Cli.{Flags, init_client, ready}
use tunel.Client.Cli.Filled.{Written, texts, specs, init_client_ready}
use tunel.Client.Gui.{Row, first_rows, add_row, add_entries}
use tunel.Client.Gui.Deletion.{IsOffByOne, second_deletion}
use tunel.Client.Window.{Reach, first_window, do_connect, do_disconnect}
use tunel.Client.Window.Buttons.{IsOutOfReach, reconnected, reconnected-IsOutOfReach}

abbrev game : Written
game = record {
  name = codes "mc";
  proto = codes "tcp";
  port = 25565;
  target = codes "localhost:25565";
}

abbrev flags : Flags
flags = record {
  server = codes "example.org:7000";
  token = codes "secret";
  tls = false;
  ca_cert = [];
  insecure = false;
  max_attempts = pos 0;
  tunnels = texts (game ∷ []);
  remote = pos 0;
  local = [];
}

abbrev unmarshal : Unmarshal
unmarshal bytes p = (p, false)

some_target : game.target ≢ []
some_target e = ground arith

some_server : flags.server ≢ []
some_server e = ground arith

some_token : flags.token ≢ []
some_token e = ground arith

init_client_ready_example :
    (c : Config) × (init_client unmarshal missing flags ≡ ready c)
    × (c.tunnels ≡ specs (game ∷ []))
    × (c.server ≡ flags.server)
    × (c.token ≡ flags.token)
init_client_ready_example =
    init_client_ready unmarshal missing flags game [] refl
      ((ground arith, inl refl, omega arith, omega arith, some_target), tt) refl some_server
      some_token refl

abbrev entry : ℤ → TunnelEntry
entry port = record { name = []; proto = codes "udp"; public_port = port; local_target = [] }

abbrev entries : List TunnelEntry
entries = entry (pos 1) ∷ entry (pos 2) ∷ entry (pos 3) ∷ []

abbrev row : ℕ → Str → Row
row i port = record { proto = codes "udp"; port = port; local = []; index = i }

rows : first_rows entries ≡ row 0 (codes "1") ∷ row 1 (codes "2") ∷ row 2 (codes "3") ∷ []
unfolding first_rows add_entries add_row str_eq decimal
rows = refl

second_deletion_example :
    IsOffByOne (first_rows entries) 0 1 (row 0 (codes "1")) (row 1 (codes "2"))
second_deletion_example =
    second_deletion entries 0 1 (row 0 (codes "1")) (row 1 (codes "2")) (rw rows refl)
      (rw rows refl) (omega arith)

reconnected-IsOutOfReach_example :
    Reach first_window (reconnected first_window)
    × IsOutOfReach 1 (reconnected first_window)
    × (get 1 (do_disconnect (do_connect true (reconnected first_window))).running ≡ some false)
reconnected-IsOutOfReach_example = reconnected-IsOutOfReach first_window refl
