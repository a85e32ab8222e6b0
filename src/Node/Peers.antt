-- ===== src/Node/Peers.antt =====
-- The bounded set of known peers, `PeerList` of l1-chain/node/src/peers.rs. The classes of addresses are
-- those of the standard library's `Ipv4Addr` and `Ipv6Addr`, and are parameters.
use bina_blockchain_l.Prelude.{
  ℕ, ◌+◌, ◌≤◌, ◌≡◌, Bool, true, false, not, ◌&&◌, ◌||◌, List, [], ◌∷◌, map, arith, leb, ◌==◌,
  if◌then◌else◌, length, Bytes, bytes_key, nat_key, member, insert, erase, keys,
}

pub record AddressClasses : Type 0 where
  pub v4_unspecified : Bytes → Bool
  pub v4_broadcast : Bytes → Bool
  pub v4_multicast : Bytes → Bool
  pub v4_loopback : Bytes → Bool
  pub v4_private : Bytes → Bool
  pub v4_link_local : Bytes → Bool
  pub v6_unspecified : Bytes → Bool
  pub v6_multicast : Bytes → Bool
  pub v6_loopback : Bytes → Bool

pub data Family : Type 0 where
  v4 v6 : Family

-- `SocketAddr`
pub record SocketAddress : Type 0 where
  pub family : Family
  pub ip : Bytes
  pub port : ℕ

-- `PeerList`; the set of peers is a list without duplicates, by the encoding of an address as bytes.
pub record PeerList : Type 0 where
  pub peers : List (Bytes × SocketAddress)
  pub max_peers : ℕ
  pub allow_loopback : Bool
  pub allow_private : Bool

unfoldable pub with_policy : ℕ → Bool → Bool → PeerList
with_policy max_peers loopback private = record {
  peers = [];
  max_peers = max_peers;
  allow_loopback = loopback;
  allow_private = private;
}

-- An address as a key: its family, its bytes and its port.
unfoldable pub address_key : SocketAddress → Bytes
address_key a = elim a.family [ v4 ↦ 4 ∷ a.port ∷ a.ip | v6 ↦ 6 ∷ a.port ∷ a.ip ]

module _ (k : AddressClasses) where
  is_private_v4 : Bytes → Bool
  is_private_v4 ip = k.v4_private ip || k.v4_link_local ip

  is_allowed_ip : PeerList → Family → Bytes → Bool
  unfolding is_private_v4
  is_allowed_ip l v4 ip =
      if k.v4_unspecified ip || (k.v4_broadcast ip || k.v4_multicast ip)
      then false
      else if k.v4_loopback ip && not l.allow_loopback
      then false
      else if is_private_v4 ip && not l.allow_private
      then false
      else true
  is_allowed_ip l v6 ip =
      if k.v6_unspecified ip || k.v6_multicast ip
      then false
      else if k.v6_loopback ip && not l.allow_loopback
      then false
      else true

  unfoldable pub is_allowed_addr : PeerList → SocketAddress → Bool
  unfolding is_allowed_ip
  is_allowed_addr l a = if a.port == 0 then false else is_allowed_ip l a.family a.ip

  -- The answer says whether the address is new.
  unfoldable pub add : PeerList → SocketAddress → Bool × PeerList
  unfolding is_allowed_addr address_key
  add l a =
      if not (is_allowed_addr l a)
      then (false, l)
      else let known = member (address_key a) (keys l.peers) in
        if leb l.max_peers (length l.peers) && not known
        then (false, l)
        else (not known, record l { peers = insert (address_key a) a l.peers })

unfoldable pub remove : PeerList → SocketAddress → Bool × PeerList
unfolding address_key
remove l a =
    (member (address_key a) (keys l.peers), record l { peers = erase (address_key a) l.peers })

unfoldable pub contains : PeerList → SocketAddress → Bool
unfolding address_key
contains l a = member (address_key a) (keys l.peers)

unfoldable pub all_peers : PeerList → List SocketAddress
all_peers l = map (λ e. e.1) l.peers

unfoldable pub count : PeerList → ℕ
count l = length l.peers

length-insert :
    (k : Bytes) (a : SocketAddress) (m : List (Bytes × SocketAddress))
    → length (insert k a m) ≡ (if member k (keys m) then length m else length m + 1)
length-insert k a [] = omega arith
length-insert k a ((j, b) ∷ m) = ground (arith, length-insert k a m)

-- A peer list within its bound stays within it when an address is added, whether or not the address
-- is taken.
pub add-bounded :
    (k : AddressClasses) (l : PeerList) (a : SocketAddress)
    → length l.peers ≤ l.max_peers
    → length (add k l a).1.peers ≤ (add k l a).1.max_peers
unfolding add
add-bounded k l a h = ground (arith, length-insert (address_key a) a l.peers)
