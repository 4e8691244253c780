-- ===== src/Client/Tun.antt =====
-- The set-up of the TUN device: internal/client/tun_unix.go and tun_windows.go. Whether a command of the
-- shell succeeds is a parameter.
pub mod Prefix
use tunel.Prelude.{
  ℕ, Bool, true, false, List, [], ◌∷◌, ◌++◌, Str, Option, none, some, codes, if◌then◌else◌, str_eq,
  not, ◌==◌,
}
use tunel.Protocol.Messages.{AuthOk}

-- The masks of `maskToPrefix` that have a case, with the prefix of each.
abbrev pub cases : List (Str × Str)
cases =
    (codes "255.255.255.255", codes "32")
    ∷ (codes "255.255.255.254", codes "31")
    ∷ (codes "255.255.255.252", codes "30")
    ∷ (codes "255.255.255.248", codes "29")
    ∷ (codes "255.255.255.240", codes "28")
    ∷ (codes "255.255.255.224", codes "27")
    ∷ (codes "255.255.255.192", codes "26")
    ∷ (codes "255.255.255.128", codes "25")
    ∷ (codes "255.255.255.0", codes "24")
    ∷ (codes "255.255.254.0", codes "23")
    ∷ (codes "255.255.252.0", codes "22")
    ∷ (codes "255.255.0.0", codes "16")
    ∷ []

-- A switch over texts.
unfoldable pub switch : Str → List (Str × Str) → Str → Str
switch s [] default = default
switch s ((label, result) ∷ rest) default =
    let later = switch s rest default in if str_eq s label then result else later

unfoldable pub mask_to_prefix : Str → Str
mask_to_prefix mask = switch mask cases (codes "24")

abbrev pub link_up : Str → Str
link_up name = codes "ip link set " ++ (name ++ codes " up")

abbrev pub addr_add : Str → Str → Str → Str
addr_add name ip mask =
    codes "ip addr add " ++ (ip ++ (b'/' ∷ (mask_to_prefix mask ++ (codes " dev " ++ name))))

abbrev pub link_mtu : Str → Str
link_mtu name = codes "ip link set " ++ (name ++ codes " mtu 1400")

-- The commands that are run, until one fails: false if one does.
unfoldable pub run_all : (Str → Bool) → List Str → List Str × Bool
run_all runs [] = ([], true)
run_all runs (c ∷ rest) =
    let (later, fine) = run_all runs rest in if runs c then (c ∷ later, fine) else (c ∷ [], false)

unfoldable pub configure_linux : (Str → Bool) → Str → AuthOk → List Str × Bool
configure_linux runs name a =
    run_all runs (link_up name ∷ addr_add name a.vpn_ip a.vpn_mask ∷ link_mtu name ∷ [])

-- On macOS only the first command can fail the set-up.
unfoldable pub configure_darwin : (Str → Bool) → Str → AuthOk → List Str × Bool
configure_darwin runs name a =
    let up =
      codes "ifconfig "
      ++ (name ++ (b' ' ∷ (a.vpn_ip ++ (b' ' ∷ (a.vpn_gateway ++ codes " up"))))) in
    let add = codes "route -n add -net " ++ (a.vpn_subnet ++ (b' ' ∷ name)) in
    let mtu = codes "ifconfig " ++ (name ++ codes " mtu 1400") in
    if not (runs up)
    then (up ∷ [], false)
    else (up ∷ (if str_eq a.vpn_subnet [] then mtu ∷ [] else add ∷ mtu ∷ []), true)

-- `configureTUN`: the name of the device, if it can be had.
unfoldable pub configure_tun : Bool → (Str → Bool) → Option Str → AuthOk → List Str × Bool
configure_tun darwin runs none a = ([], false)
configure_tun darwin runs (some name) a =
    if darwin then configure_darwin runs name a else configure_linux runs name a

-- `doubleQuote` of internal/client/tun_windows.go.
unfoldable pub double_quote : Str → Str
double_quote [] = b'"' ∷ (b'"' ∷ [])
double_quote (c ∷ s) = if c == b'"' then c ∷ s else b'"' ∷ ((c ∷ s) ++ (b'"' ∷ []))

-- `configureTUN` on Windows, for the name of the device, if it can be had.
unfoldable pub configure_windows : (Str → Bool) → Option Str → AuthOk → List Str × Bool
configure_windows runs none a = ([], false)
configure_windows runs (some name) a =
    let address =
      codes "netsh interface ip set address name="
      ++ (double_quote name
          ++ (codes " static " ++ (a.vpn_ip ++ (b' ' ∷ (a.vpn_mask ++ (b' ' ∷ a.vpn_gateway)))))) in
    let mtu =
      codes "netsh interface ip set subinterface " ++ (double_quote name ++ codes " mtu=1400") in
    let add =
      codes "route add "
      ++ (a.vpn_subnet
          ++ (codes " mask " ++ (a.vpn_mask ++ (b' ' ∷ (a.vpn_gateway ++ codes " metric 1"))))) in
    run_all runs (address ∷ mtu ∷ add ∷ [])
