-- ===== src/Server/Room/Allocate.antt =====
-- The address allocator of internal/server/room.go.
use tunel.Prelude.{
  ℕ, zero, suc, ◌+◌, ◌-◌, ◌%◌, ◌≤◌, ◌<◌, ◌≡◌, ◌↔◌, true, false, none, some, arith, Bool-cases,
  Option-cases, inl, inr,
}
use tunel.Prelude.Map.{Map}
use tunel.Protocol.Packet.{Ip4}
use tunel.Protocol.Packet.Laws.{ip4_eq}
use tunel.Server.Room.{Room, is_taken, with_host, subnet_base, advance, allocate_loop, allocate}

-- The host octets that a room hands out.
abbrev pub IsHost : ℕ → Type 0
IsHost oct = (1 ≤ oct) × (oct ≤ 254)

pub advance-IsHost : (next : ℕ) → IsHost next → IsHost (advance next)
unfolding advance
advance-IsHost next h = ground arith

-- The octet that is tried `j` rounds after `next`.
abbrev slot : ℕ → ℕ → ℕ
slot next j = (next - 1 + j) % 254 + 1

slot-advance : (next j : ℕ) → IsHost next → slot (advance next) j ≡ slot next (suc j)
unfolding advance
slot-advance next j h = ground arith

allocate_loop-none :
    (rounds : ℕ) (base : Ip4) (peers : Map Ip4 ℕ) (next j : ℕ)
    → IsHost next
    → (allocate_loop rounds base peers next).1 ≡ none
    → j < rounds
    → is_taken (with_host base (slot next j)) peers ≡ true
unfolding allocate_loop
allocate_loop-none zero base peers next j h e lt = elim lt [ ]
allocate_loop-none (suc rounds) base peers next zero h e lt =
    let here : slot next 0 ≡ next = omega arith in rw here (ground arith)
allocate_loop-none (suc rounds) base peers next (suc j) h e lt = rw (← slot-advance next j h) (
    allocate_loop-none rounds base peers (advance next) j (advance-IsHost next h) (ground arith)
      (omega arith))

abbrev pub Found : Ip4 → Map Ip4 ℕ → Ip4 → Type 0
Found base peers ip =
    (oct : ℕ) × (ip ≡ with_host base oct) × IsHost oct × (is_taken ip peers ≡ false)

allocate_loop-some :
    (rounds : ℕ) (base : Ip4) (peers : Map Ip4 ℕ) (next : ℕ) (ip : Ip4)
    → IsHost next
    → (allocate_loop rounds base peers next).1 ≡ some ip
    → Found base peers ip
unfolding allocate_loop
allocate_loop-some zero base peers next ip h e = cc
allocate_loop-some (suc rounds) base peers next ip h e =
    elim (Bool-cases (is_taken (with_host base next) peers)) [
      | inl taken ↦
          allocate_loop-some rounds base peers (advance next) ip (advance-IsHost next h)
            (ground arith)
      | inr free ↦ (next, ground arith, h, ground arith)
    ]

pub allocate_loop-IsHost :
    (rounds : ℕ) (base : Ip4) (peers : Map Ip4 ℕ) (next : ℕ)
    → IsHost next
    → IsHost (allocate_loop rounds base peers next).0
unfolding allocate_loop
allocate_loop-IsHost zero base peers next h = h
allocate_loop-IsHost (suc rounds) base peers next h = ground (
  arith,
  advance-IsHost next h,
  allocate_loop-IsHost rounds base peers (advance next) (advance-IsHost next h),
)

-- The cursor of a room stays on a host octet.
pub allocate-IsHost : (r : Room) → IsHost r.next_ip → IsHost (allocate r).0.next_ip
unfolding allocate
allocate-IsHost r h = allocate_loop-IsHost 254 (subnet_base r) r.peers r.next_ip h

-- An address that is handed out lies in the room's subnet, is a host address, and is free.
pub allocate_sound :
    (r : Room) (ip : Ip4)
    → IsHost r.next_ip
    → (allocate r).1 ≡ some ip
    → Found (subnet_base r) r.peers ip
unfolding allocate
allocate_sound r ip h e = allocate_loop-some 254 (subnet_base r) r.peers r.next_ip ip h e

abbrev pub IsFull : Room → Type 0
IsFull r = (oct : ℕ) → IsHost oct → is_taken (with_host (subnet_base r) oct) r.peers ≡ true

-- "room full" is the answer exactly if all of the 254 host addresses are taken, wherever the cursor
-- stands.
pub allocate-IsFull : (r : Room) → IsHost r.next_ip → ((allocate r).1 ≡ none) ↔ IsFull r
unfolding allocate
allocate-IsFull r h = (full, none_left)
  where
    full : (allocate r).1 ≡ none → IsFull r
    full e oct host =
        let j : ℕ = (oct + 254 - r.next_ip) % 254 in
        let here : slot r.next_ip j ≡ oct = omega arith in
        rw here at (allocate_loop-none 254 (subnet_base r) r.peers r.next_ip j h e (omega arith))

    none_left : IsFull r → (allocate r).1 ≡ none
    none_left all = elim (Option-cases (allocate r).1) [
      | inl e ↦ e
      | inr (ip, e) ↦
          let (oct, eq, host, free) = allocate_sound r ip h e in cc (all oct host, free, eq)
    ]
