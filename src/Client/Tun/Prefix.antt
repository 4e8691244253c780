-- ===== src/Client/Tun/Prefix.antt =====
-- The prefix length that a mask is turned into: `maskToPrefix` of internal/client/tun_unix.go.
use tunel.Prelude.{
  ℕ, ◌-◌, ◌^◌, ◌≤◌, ◌≡◌, refl, Bool, true, arith, if◌then◌else◌, leb, ◌==◌, ◌||◌, str_eq,
  str_eq_iff, decimal, passes_to, passes_to_lem,
}
use tunel.Protocol.Packet.{Ip4}
use tunel.Server.Peer.{ip_string}
use tunel.Client.Tun.{switch, mask_to_prefix}

-- The byte of a mask with `n` bits of it set, and the mask of `n` bits.
abbrev octet : ℕ → ℕ
octet n = if leb 8 n then 255 else 256 - 2 ^ (8 - n)

abbrev pub netmask : ℕ → Ip4
netmask n = record { a = octet n; b = octet (n - 8); c = octet (n - 16); d = octet (n - 24) }

-- The lengths that have a case.
abbrev pub has_case : ℕ → Bool
has_case n = n == 16 || leb 22 n

-- `maskToPrefix` of the mask of `n` bits.
abbrev gives : ℕ → Bool
gives n = str_eq (mask_to_prefix (ip_string (netmask n))) (decimal (if has_case n then n else 24))

gives_table : passes_to gives 33 ≡ true
unfolding passes_to mask_to_prefix switch ip_string decimal str_eq
gives_table = refl

-- Of the mask of `n` bits, for any `n` up to 32, the prefix is `n` if that is 16 or at least 22; all other
-- masks are turned into a prefix of 24 bits.
pub mask_to_prefix-netmask :
    (n : ℕ)
    → n ≤ 32
    → mask_to_prefix (ip_string (netmask n)) ≡ decimal (if has_case n then n else 24)
mask_to_prefix-netmask n small =
    (str_eq_iff _ _).0 (passes_to_lem gives 33 n (omega arith) gives_table)
