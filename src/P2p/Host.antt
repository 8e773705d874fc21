-- ===== src/P2p/Host.antt =====
-- A new host and its bootstrap peers: `New` and `connectPeer` of pkg/p2p/p2p.go. libp2p is an argument.
use opencoin.Prelude.{List, [], ◌∷◌, Bytes, Result, ok, ◌>>=◌}
use opencoin.P2p.{P2p}

-- What libp2p makes of addresses, and the hosts, topics and routing tables that it makes. A connection
-- changes the host.
pub record Libp2p : Type 1 where
  pub Host : Type 0
  pub PubSub : Type 0
  pub Dht : Type 0
  pub Multiaddr : Type 0
  pub AddrInfo : Type 0
  pub new_host : List Bytes → Result Host
  pub new_gossip_sub : Host → Result PubSub
  pub new_dht : Host → Result Dht
  pub new_multiaddr : Bytes → Result Multiaddr
  pub addr_info : Multiaddr → Result AddrInfo
  pub connect : Host → AddrInfo → Result Host

-- `P2P`; the session keys are a state of their own.
pub record P2pNode (l : Libp2p) : Type 0 where
  pub host : l.Host
  pub dht : l.Dht
  pub pub_sub : l.PubSub
  pub sessions : P2p

module _ (l : Libp2p) where
  unfoldable pub connect_peer : l.Host → Bytes → Result l.Host
  connect_peer host addr = do ma ← l.new_multiaddr addr; info ← l.addr_info ma; l.connect host info

  unfoldable pub connect_peers : l.Host → List Bytes → Result l.Host
  unfolding connect_peer
  connect_peers host [] = ok host
  connect_peers host (addr ∷ addrs) = do
    connected ← connect_peer host addr
    connect_peers connected addrs

  -- What is set on the host for the key exchange is left out.
  unfoldable pub new_p2p : List Bytes → List Bytes → Result (P2pNode l)
  unfolding connect_peers
  new_p2p listen_addrs bootstrap_peers = do
    host ← l.new_host listen_addrs
    pub_sub ← l.new_gossip_sub host
    dht ← l.new_dht host
    connected ← connect_peers host bootstrap_peers
    ok (record {
      host = connected;
      dht = dht;
      pub_sub = pub_sub;
      sessions = record { sessions = [] };
    })
