-- ===== src/Network/Flood.antt =====
-- Servers that hand says on to one another (server.c): any number of them, connected in any way, with the
-- requests that are on their way between them, each of which may be lost. What clients ask for, and the
-- renewals at the end of a round, are left aside; a server whose case ends with a fault stops.
pub mod Loads
pub mod Handling
pub mod Dies
pub mod Ends
pub mod Once
use shell_chat_app_multi_ser.Base.{
  ℕ, zero, suc, ◌+◌, ◌*◌, ◌≡◌, List, [], ◌∷◌, ◌++◌, length, take, drop, true, false, if◌then◌else◌,
}
use shell_chat_app_multi_ser.Duckchat.{Address}
use shell_chat_app_multi_ser.Packets.{
  Request, login, logout, join, leave, say, list, who, keep_alive, serv_join, serv_leave, serv_say,
  unknown,
}
use shell_chat_app_multi_ser.Recent.{Recent}
use shell_chat_app_multi_ser.Recent.Seen.{among}
use shell_chat_app_multi_ser.Server.State.{State, Datagram, Message, to_server, to_client, done}
use shell_chat_app_multi_ser.Server.Rooms.{Next}
use shell_chat_app_multi_ser.Server.Round.{dispatch}

pub record Node : Type 0 where
  pub addr : Address
  pub state : State

-- A request on its way from one server to another.
pub record Hop : Type 0 where
  pub src : Address
  pub dest : Address
  pub request : Request

pub record Net : Type 0 where
  pub nodes : List Node
  pub flight : List Hop

-- What goes to servers of what a server sent.
abbrev pub peer_hop : Address → Address → Message → List Hop
peer_hop src dest (to_server rq) = record { src = src; dest = dest; request = rq } ∷ []
peer_hop src dest (to_client reply) = []

abbrev pub to_peers : Address → List Datagram → List Hop
to_peers src [] = []
to_peers src (d ∷ ds) = peer_hop src d.dest d.message ++ to_peers src ds

-- A request comes to its server, at some time, and what this then sends is on its way; or it is lost.
pub data NetStep : Net → Net → Type 0 where
  delivered :
      (w : Net) (ls rs : List Node) (n : Node) (front back : List Hop) (h : Hop) (now random : ℕ)
      (next : Next) (s : State)
      → w.nodes ≡ ls ++ n ∷ rs
      → w.flight ≡ front ++ h ∷ back
      → n.addr ≡ h.dest
      → dispatch now random h.src h.request n.state ≡ done next s
      → NetStep w (record {
        nodes = ls ++ record n { state = s } ∷ rs;
        flight = (front ++ back) ++ to_peers n.addr (drop (length n.state.sent) s.sent);
      })
  lost :
      (w : Net) (front back : List Hop) (h : Hop)
      → w.flight ≡ front ++ h ∷ back
      → NetStep w (record w { flight = front ++ back })

-- This many steps, one after another.
pub data NetSteps : ℕ → Net → Net → Type 0 where
  still : (w : Net) → NetSteps 0 w w
  later : (n : ℕ) (u v w : Net) → NetSteps n u v → NetStep v w → NetSteps (suc n) u w

-- The ids that a server has recorded.
abbrev pub seen_ids : Recent → List ℕ
seen_ids r = take r.num_ids r.recent_ids

-- How many of the ids `ks` are not among `ids`.
abbrev pub fresh_ids : List ℕ → List ℕ → ℕ
fresh_ids [] ids = 0
fresh_ids (k ∷ ks) ids = let rest = fresh_ids ks ids in if among k ids then rest else suc rest

abbrev pub weight : Request → ℕ
weight (serv_say id username channel text) = 2
weight (login name) = 1
weight logout = 1
weight (join channel) = 1
weight (leave channel) = 1
weight (say channel text) = 1
weight list = 1
weight (who channel) = 1
weight keep_alive = 1
weight (serv_join channel) = 1
weight (serv_leave channel) = 1
weight (unknown type) = 1

abbrev pub flight_weight : List Hop → ℕ
flight_weight [] = 0
flight_weight (h ∷ hs) = weight h.request + flight_weight hs

abbrev pub node_weight : List ℕ → Node → ℕ
node_weight ks n = 2 * length n.state.srvrs * fresh_ids ks (seen_ids n.state.recent)

abbrev pub nodes_weight : List ℕ → List Node → ℕ
nodes_weight ks [] = 0
nodes_weight ks (n ∷ ns) = node_weight ks n + nodes_weight ks ns

-- A bound on the steps of a net in which these ids are about.
abbrev pub net_weight : List ℕ → Net → ℕ
net_weight ks w = nodes_weight ks w.nodes + flight_weight w.flight
