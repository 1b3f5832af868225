-- ===== src/Tests/Starts.antt =====
-- Starts: a socket, and a server with one neighbour in its command line.
use shell_chat_app_multi_ser.Addresses.{as_uint16, atoi, create_sockaddr, htons, localhost, ntohs}
use shell_chat_app_multi_ser.Addresses.Ports.{create_sockaddr-port, decimal}
use shell_chat_app_multi_ser.Adjacent.Subs.{IsSound}
use shell_chat_app_multi_ser.Base.{
  All, [], arith, codes, if◌then◌else◌, length, map, negsuc, ok, pos, refl, some, str_eq, ◌∷◌, ◌≡◌,
}
use shell_chat_app_multi_ser.Channels.{Channel}
use shell_chat_app_multi_ser.Duckchat.{Address}
use shell_chat_app_multi_ser.Server.Chat.{Represents}
use shell_chat_app_multi_ser.Server.CommandLine.{launch, no_socket, running, stopped}
use shell_chat_app_multi_ser.Server.CommandLine.Launches.{Peer, flat, launch-runs, peer_address}
use shell_chat_app_multi_ser.Server.Start.{common_room}
use shell_chat_app_multi_ser.Server.State.{State}
use shell_chat_app_multi_ser.Sockets.{Calls, Opened, fresh, get_socketfd, init_socket}
use shell_chat_app_multi_ser.Sockets.Binding.{init_socket-returns, is_usable}

abbrev calls : Calls
calls = record {
  socket = pos 3;
  bind = pos 0;
  getsockname = some (record { sin_addr = 9; sin_port = htons 4001 });
}

abbrev neighbour : Peer
neighbour = record { host = localhost; port = codes "4002" }

-- Numbers that no `long`, or no `int`, can hold.
atoi-large :
    (as_uint16 (atoi (codes "18446744073709551616")) ≡ 65535)
    × (as_uint16 (atoi (codes "-18446744073709551616")) ≡ 0)
    × (atoi (codes "4294967297") ≡ pos 1)
    × (atoi (codes "2147483648") ≡ negsuc 2147483647)
    × (atoi (codes " -12x") ≡ negsuc 11)
unfolding atoi
atoi-large = (refl, refl, refl, refl, refl)

launch-runs_example :
    (s : State) × (c : Channel) × (launch length calls 100
        ((codes "server") ∷ localhost ∷ (codes "4001") ∷ flat (neighbour ∷ []))
      ≡ ok (
          if is_usable calls (as_uint16 (atoi (codes "4001")))
          then running s
          else stopped no_socket))
    × (map (λ v. v.addr) s.srvrs ≡ map (peer_address length) (neighbour ∷ []))
    × Represents s [] (c ∷ []) (common_room 100 ∷ [])
    × All IsSound s.srvrs
    × (s.sent ≡ [])
launch-runs_example =
    launch-runs length calls 100 (codes "server") localhost (codes "4001") (neighbour ∷ [])

init_socket-returns_example :
    (o : Opened) × (init_socket length calls (some localhost) 4001 fresh ≡ ok o)
    × (o.ret ≡ (if is_usable calls 4001 then 1 else 0))
    × (get_socketfd o.self ≡ ok calls.socket)
init_socket-returns_example = init_socket-returns length calls (some localhost) 4001 fresh

create_sockaddr-port_example :
    (a : Address) × (create_sockaddr length localhost (decimal 4001) ≡ ok a)
    × (ntohs a.sin_port ≡ 4001)
    × (a.sin_addr ≡ length (if str_eq localhost localhost then codes "127.0.0.1" else localhost))
create_sockaddr-port_example = create_sockaddr-port length localhost 4001 (omega arith)
