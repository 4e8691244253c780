-- ===== src/Config/Profile.antt =====
-- internal/config/profile.go: the profile of tunelc, and how it is loaded. encoding/json is a parameter.
use tunel.Prelude.{Bool, true, false, List, [], ◌∷◌, Str, ℤ, codes, if◌then◌else◌, str_eq, ℕ}

pub record TunnelEntry : Type 0 where
  pub name : Str
  pub proto : Str
  pub public_port : ℤ
  pub local_target : Str

pub record Profile : Type 0 where
  pub server : Str
  pub token : Str
  pub ca_cert : Str
  pub insecure : Bool
  pub log_level : Str
  pub tunnels : List TunnelEntry
  pub identity_key : Str
  pub private_key : Str
  pub ed_pubkey : Str
  pub ed_privkey : Str

abbrev pub fresh_profile : Profile
fresh_profile = record {
  server = [];
  token = [];
  ca_cert = [];
  insecure = false;
  log_level = codes "info";
  tunnels = [];
  identity_key = [];
  private_key = [];
  ed_pubkey = [];
  ed_privkey = [];
}

-- What `os.ReadFile` gives: no such file, another error, or the bytes.
pub data File : Type 0 where
  missing unreadable : File
  contents : List ℕ → File

-- What `json.Unmarshal` leaves in the profile that it is given, and whether it succeeded.
abbrev pub Unmarshal : Type 0
Unmarshal = List ℕ → Profile → Profile × Bool

-- `LoadProfile`: the profile, and true if there was no error. A profile with no log level has the default.
unfoldable pub load_profile : Unmarshal → File → Profile × Bool
load_profile unmarshal missing = (fresh_profile, true)
load_profile unmarshal unreadable = (fresh_profile, false)
load_profile unmarshal (contents []) = (fresh_profile, true)
load_profile unmarshal (contents (x ∷ xs)) =
    let (p, read) = unmarshal (x ∷ xs) fresh_profile in
    if read
    then (
      record p { log_level = if str_eq p.log_level [] then codes "info" else p.log_level },
      true,
    )
    else (p, false)
