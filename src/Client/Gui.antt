-- ===== src/Client/Gui.antt =====
-- The tunnels tab of the graphical client, cmd/tunelc/gui.go: the rows, the buttons that add and delete
-- them, and what `doConnect` makes of them. A row is what its widgets show, with the index that its delete
-- button was given.
pub mod Deletion
pub mod Saved
use tunel.Prelude.{
  ℕ, zero, suc, ◌+◌, Bool, true, false, List, [], ◌∷◌, ◌++◌, Str, ℤ, pos, negsuc, Option, none,
  some, codes, if◌then◌else◌, str_eq, leb, length, take, drop, decimal, ◌||◌,
}
use tunel.Config.{trim_space}
use tunel.Config.Profile.{TunnelEntry, Profile}
use tunel.Client.Spec.{TunnelSpec}
use tunel.Client.Flag.{atoi}

pub record Row : Type 0 where
  pub proto : Str
  pub port : Str
  pub local : Str
  pub index : ℕ

-- `SetSelected` of a transport that is not offered selects nothing, and then TCP is selected.
abbrev pub selected : Str → Str
selected proto =
    if str_eq proto (codes "tcp") || str_eq proto (codes "udp") then proto else codes "tcp"

unfoldable pub add_row : Str → Str → Str → List Row → List Row
add_row proto port local rows =
    rows
    ++ (record { proto = selected proto; port = port; local = local; index = length rows } ∷ [])

-- `fmt.Sprintf("%d", n)`.
abbrev pub int_text : ℤ → Str
int_text (pos n) = decimal n
int_text (negsuc n) = b'-' ∷ decimal (n + 1)

unfoldable pub add_entries : List TunnelEntry → List Row → List Row
add_entries [] rows = rows
add_entries (t ∷ rest) rows =
    add_entries rest (add_row t.proto (int_text t.public_port) t.local_target rows)

-- The rows that the window starts with.
unfoldable pub first_rows : List TunnelEntry → List Row
first_rows [] = add_row (codes "tcp") (codes "25565") (codes "localhost:25565") []
first_rows (t ∷ rest) = add_entries (t ∷ rest) []

pub record Preset : Type 0 where
  pub name : Str
  pub port : Str
  pub proto : Str
  pub local : Str

abbrev preset : Str → Str → Str → Str → Preset
preset name port proto local = record { name = name; port = port; proto = proto; local = local }

abbrev pub presets : List Preset
presets =
    preset (codes "Minecraft Java") (codes "25565") (codes "tcp") (codes "localhost:25565")
    ∷ preset (codes "Minecraft Bedrock") (codes "19132") (codes "udp") (codes "localhost:19132")
    ∷ preset (codes "Terraria") (codes "7777") (codes "tcp") (codes "localhost:7777")
    ∷ preset (codes "Valheim") (codes "2456") (codes "udp") (codes "localhost:2456")
    ∷ preset (codes "Factorio") (codes "34197") (codes "udp") (codes "localhost:34197")
    ∷ preset (codes "Project Zomboid") (codes "16262") (codes "udp") (codes "localhost:16262")
    ∷ []

-- The loop over the presets: the first with the name is added.
unfoldable pub add_preset : Str → List Preset → List Row → List Row
add_preset name [] rows = rows
add_preset name (p ∷ rest) rows =
    let later = add_preset name rest rows in
    if str_eq name p.name then add_row p.proto p.port p.local rows else later

-- The delete button of a row with this index: `append(rows[:idx], rows[idx+1:]...)`. `none` is the panic of
-- a slice out of range.
unfoldable pub delete_at : ℕ → List Row → Option (List Row)
delete_at i rows =
    if leb (suc i) (length rows) then some (take i rows ++ drop (suc i) rows) else none

-- `port, _ := strconv.Atoi(strings.TrimSpace(text))`: a text out of range leaves the nearest int, and any
-- other that cannot be read leaves 0.
unfoldable pub port_of : (Str → ℤ) → Str → ℤ
port_of on_error text = elim (atoi (trim_space text)) [
  | some n ↦ n
  | none ↦ on_error (trim_space text)
]

is_zero : ℤ → Bool
is_zero (pos zero) = true
is_zero n = false

is_positive : ℤ → Bool
is_positive (pos (suc n)) = true
is_positive n = false

-- The tunnels that `doConnect` asks for: rows with no port are passed over.
unfoldable pub specs_of_rows : (Str → ℤ) → List Row → List TunnelSpec
unfolding is_zero
specs_of_rows on_error [] = []
specs_of_rows on_error (r ∷ rows) =
    let later = specs_of_rows on_error rows in
    if is_zero (port_of on_error r.port)
    then later
    else record {
      proto = r.proto;
      public_port = port_of on_error r.port;
      local_target = trim_space r.local;
      name = [];
    }
      ∷ later

-- The tunnels that `doConnect` saves in the profile: those with a positive port.
unfoldable pub entries_of_rows : (Str → ℤ) → List Row → List TunnelEntry
unfolding is_positive
entries_of_rows on_error [] = []
entries_of_rows on_error (r ∷ rows) =
    let later = entries_of_rows on_error rows in
    if is_positive (port_of on_error r.port)
    then record {
      name = [];
      proto = r.proto;
      public_port = port_of on_error r.port;
      local_target = trim_space r.local;
    }
      ∷ later
    else later

-- The keys that `doConnect` puts into the configuration: none for the tunnels; for the VPN those of the
-- profile, or new ones, as far as they can be generated, if it has no identity.
pub record Keys : Type 0 where
  pub identity_key : Str
  pub private_key : Str
  pub ed_pubkey : Str
  pub ed_privkey : Str

unfoldable pub gui_keys : Bool → Profile → Option (Str × Str) → Option (Str × Str) → Keys
gui_keys false p identity ed = record {
  identity_key = [];
  private_key = [];
  ed_pubkey = [];
  ed_privkey = [];
}
gui_keys true p identity ed =
    let fresh = str_eq p.identity_key [] in
    record {
      identity_key = if fresh then elim identity [ none ↦ [] | some k ↦ k.0 ] else p.identity_key;
      private_key =
          if fresh then elim identity [ none ↦ p.private_key | some k ↦ k.1 ] else p.private_key;
      ed_pubkey = if fresh then elim ed [ none ↦ p.ed_pubkey | some k ↦ k.0 ] else p.ed_pubkey;
      ed_privkey = if fresh then elim ed [ none ↦ p.ed_privkey | some k ↦ k.1 ] else p.ed_privkey;
    }

-- The settings above the tabs.
pub record Form : Type 0 where
  pub server : Str
  pub token : Str
  pub ca_cert : Str
  pub insecure : Bool

-- The profile that `doConnect` saves.
unfoldable pub saved_profile : (Str → ℤ) → Form → Keys → List Row → Profile
saved_profile on_error f k rows = record {
  server = f.server;
  token = f.token;
  ca_cert = f.ca_cert;
  insecure = f.insecure;
  log_level = codes "info";
  tunnels = entries_of_rows on_error rows;
  identity_key = k.identity_key;
  private_key = k.private_key;
  ed_pubkey = k.ed_pubkey;
  ed_privkey = k.ed_privkey;
}
