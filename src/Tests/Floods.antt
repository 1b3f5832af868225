-- ===== src/Tests/Floods.antt =====
-- Floods: a say that one of two servers hands to the other.
use shell_chat_app_multi_ser.Adjacent.{addr_cmp}
use shell_chat_app_multi_ser.Base.{
  [], ap, arith, codes, drop, length, refl, str_eq, ◌+◌, ◌∷◌, ◌≡◌, ◌≤◌,
}
use shell_chat_app_multi_ser.Channels.{comp_sockaddr}
use shell_chat_app_multi_ser.Network.Flood.{
  Hop, Net, NetSteps, Node, delivered, later, lost, net_weight, still, to_peers,
}
use shell_chat_app_multi_ser.Network.Flood.Dies.{HasRoom}
use shell_chat_app_multi_ser.Network.Flood.Ends.{IsBounded, course, says-NetSteps}
use shell_chat_app_multi_ser.Network.Flood.Once.{handle_serv_say_later}
use shell_chat_app_multi_ser.Packets.{Request, serv_say}
use shell_chat_app_multi_ser.Recent.{record_id}
use shell_chat_app_multi_ser.Recent.Seen.{no_ids-Remembers}
use shell_chat_app_multi_ser.Server.Peers.{handle_serv_say}
use shell_chat_app_multi_ser.Server.Peers.DeadEnds.{leave_to}
use shell_chat_app_multi_ser.Server.Peers.Forward.{hand_on, handle_serv_say-forwards}
use shell_chat_app_multi_ser.Server.Rooms.{resub}
use shell_chat_app_multi_ser.Server.Round.{dispatch}
use shell_chat_app_multi_ser.Server.State.{State, continue, done, pure}
use shell_chat_app_multi_ser.Server.State.Loops.{sends}
use shell_chat_app_multi_ser.Tests.Setup.{
  host, left-IsSound, open_channels, right-IsSound, rooms, ruby, ruby_room, talking,
  talking-Represents, users,
}

abbrev carols_say : Request
carols_say = serv_say 77 (codes "carol") ruby (codes "hi")

abbrev first_node : Node
first_node = record { addr = host 4001; state = talking }

abbrev second_node : Node
second_node = record { addr = host 4002; state = talking }

abbrev carols_hop : Hop
carols_hop = record { src = host 4003; dest = host 4001; request = carols_say }

abbrev on_its_way : Net
on_its_way = record { nodes = first_node ∷ second_node ∷ []; flight = carols_hop ∷ [] }

abbrev told_state : State
told_state =
    record (sends talking
      (hand_on (host 4003) 77 (codes "carol") ruby (codes "hi") ruby_room talking.srvrs)) {
        recent = record_id talking.recent 77;
      }

abbrev told_node : Node
told_node = record first_node { state = told_state }

abbrev handed_on : Net
handed_on = record {
  nodes = told_node ∷ second_node ∷ [];
  flight = to_peers (host 4001) (drop (length talking.sent) told_state.sent);
}

talking-HasRoom : HasRoom (77 ∷ []) talking
talking-HasRoom = record { remembers = no_ids-Remembers; room = omega arith }

on_its_way-IsBounded : IsBounded (77 ∷ []) on_its_way
on_its_way-IsBounded = record {
  rooms = (talking-HasRoom, (talking-HasRoom, tt));
  about = (refl, tt);
}

one_delivery : NetSteps 1 on_its_way handed_on
unfolding dispatch str_eq comp_sockaddr
one_delivery = later 0 on_its_way on_its_way handed_on (still on_its_way) (
    delivered on_its_way [] (second_node ∷ []) first_node [] [] carols_hop 200 7 resub told_state
      refl refl refl
      (ap (λ o. continue o (λ _. pure resub))
        (handle_serv_say-forwards talking users open_channels rooms [] (host 4003) 77
          (codes "carol") ruby (codes "hi") ruby_room talking-Represents
          (left-IsSound, (right-IsSound, tt)) no_ids-Remembers refl refl (λ e. cc) (omega arith)
          (omega arith) (omega arith))))

abbrev all_lost : Net
all_lost = record handed_on { flight = [] }

one_loss : NetSteps 1 handed_on all_lost
unfolding str_eq addr_cmp comp_sockaddr
one_loss =
    later 0 handed_on handed_on all_lost (still handed_on) (
      lost handed_on [] [] (record { src = host 4001; dest = host 4002; request = carols_say })
        refl)

says-NetSteps_example : 1 + net_weight (77 ∷ []) handed_on ≤ net_weight (77 ∷ []) on_its_way
says-NetSteps_example =
    says-NetSteps (77 ∷ []) 1 on_its_way handed_on on_its_way-IsBounded one_delivery

handle_serv_say_later_example :
    handle_serv_say (host 4002) 77 (codes "carol") ruby (codes "hi") told_node.state
    ≡ done tt (sends told_node.state (leave_to (host 4002) ruby ∷ []))
unfolding record_id
handle_serv_say_later_example =
    handle_serv_say_later (77 ∷ []) 1 handed_on all_lost 0 told_node told_node (host 4002) 77
      (codes "carol") ruby (codes "hi") (course (77 ∷ []) one_delivery on_its_way-IsBounded).0
      one_loss refl refl refl (omega arith)
