-- ===== src/Server/Room/Race.antt =====
-- Two grants at a time: `grantPeer` of internal/server/room.go finds an address under the lock of the room, and
-- takes it under the lock again.
use tunel.Prelude.{
  ℕ, suc, ◌≡◌, ◌≢◌, false, some, arith, Str, nat_eq, ap, sym, ◌∙◌, Option-cases, inl, inr, ==_iff,
}
use tunel.Prelude.Map.{get, put, get-put, get-put_self}
use tunel.Protocol.Packet.{Ip4}
use tunel.Protocol.Packet.Laws.{ip4_eq}
use tunel.Server.Peer.{Heap, alloc}
use tunel.Server.Room.{Room, allocate, admit, subnet_base, with_host, is_taken}
use tunel.Server.Room.Allocate.{IsHost, allocate-IsHost, allocate_sound, allocate-IsFull}

-- Both calls find an address before either takes it: the room with what the calls return.
unfoldable pub grant_both : Heap → Room → Ip4 → ℕ → ℕ → Str → Str → Str → Heap × Room × ℕ × ℕ
grant_both h r ip conn conn' pubkey ed_pubkey endpoint =
    let (h', r', p) = admit h (allocate (allocate r).0).0 ip conn pubkey ed_pubkey endpoint in
    let (h'', r'', q) = admit h' r' ip conn' pubkey ed_pubkey endpoint in (h'', r'', p, q)

-- No other address of the room is free.
abbrev IsLast : Ip4 → Room → Type 0
IsLast ip r =
    (oct : ℕ)
    → IsHost oct
    → is_taken (with_host (subnet_base r) oct) r.peers ≡ false
    → with_host (subnet_base r) oct ≡ ip

allocate_again :
    (r : Room) (ip : Ip4)
    → IsHost r.next_ip
    → (allocate r).1 ≡ some ip
    → IsLast ip r
    → (allocate (allocate r).0).1 ≡ some ip
unfolding allocate
allocate_again r ip h e last =
    let (oct, eq, host, free) = allocate_sound r ip h e in
    let h' = allocate-IsHost r h in
    elim (Option-cases (allocate (allocate r).0).1) [
      | inl full ↦
          let taken = (allocate-IsFull (allocate r).0 h').0 full oct host in
          absurd (cc (taken, free, eq))
      | inr (ip', e') ↦
          let (oct', eq', host', free') = allocate_sound (allocate r).0 ip' h' e' in
          let open' : is_taken (with_host (subnet_base r) oct') r.peers ≡ false =
            sym (ap (λ x. is_taken x r.peers) eq') ∙ free' in
          e' ∙ ap some (eq' ∙ last oct' host' open')
    ]

-- A room has one address left, and two connections are granted a peer at a time: both find that address, and
-- the second peer replaces the first under it, which its connection still has.
grant_both_replaces :
    (h : Heap) (r : Room) (ip : Ip4) (conn conn' : ℕ) (pubkey ed_pubkey endpoint : Str)
    → IsHost r.next_ip
    → (allocate r).1 ≡ some ip
    → IsLast ip r
    → conn ≢ conn'
    → let (h', r', p, q) = grant_both h r ip conn conn' pubkey ed_pubkey endpoint in
      ((allocate (allocate r).0).1 ≡ some ip)
      × (get ip r'.peers ≡ some q)
      × (p ≢ q)
      × (get conn r'.by_conn ≡ some p)
unfolding grant_both admit alloc
grant_both_replaces h r ip conn conn' pubkey ed_pubkey endpoint host e last apart = (
  allocate_again r ip host e last,
  get-put_self ip (suc h.next) _,
  (λ same. omega (arith, same)),
  ground (
    arith,
    get-put conn' conn (suc h.next) (put conn h.next (allocate (allocate r).0).0.by_conn),
    get-put_self conn h.next (allocate (allocate r).0).0.by_conn,
    ==_iff conn' conn,
  ),
)
