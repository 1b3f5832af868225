-- ===== src/Tests/Networks.antt =====
-- Networks: a client that starts, asks and speaks, and two servers.
use shell_chat_app_multi_ser.Addresses.{localhost, ntohs}
use shell_chat_app_multi_ser.Addresses.Ports.{decimal}
use shell_chat_app_multi_ser.Base.{
  All, List, [], arith, codes, if◌then◌else◌, keep, length, map, none, ok, pos, refl, replicate,
  str_eq, suc, true, ◌++◌, ◌∷◌, ◌≡◌,
}
use shell_chat_app_multi_ser.Channels.{comp_sockaddr}
use shell_chat_app_multi_ser.Client.Loop.{Client, on_line}
use shell_chat_app_multi_ser.Client.Screen.{on_datagram}
use shell_chat_app_multi_ser.Client.Screen.Lists.{lines}
use shell_chat_app_multi_ser.Client.Screen.Shows.{shown_say}
use shell_chat_app_multi_ser.Client.Screen.Users.{shown_who}
use shell_chat_app_multi_ser.Client.Start.{
  Connection, Surroundings, connected, end_main, start_main,
}
use shell_chat_app_multi_ser.Client.Start.Restores.{start_main-connects}
use shell_chat_app_multi_ser.Client.Waiting.{Waits}
use shell_chat_app_multi_ser.Duckchat.{common}
use shell_chat_app_multi_ser.Network.{Displays, message_bytes, receive_datagram}
use shell_chat_app_multi_ser.Network.Asks.{list_request-Displays, who_request-Displays}
use shell_chat_app_multi_ser.Network.Enters.{newcomer, started_client-Shows}
use shell_chat_app_multi_ser.Network.Passes.{remote_say-Displays}
use shell_chat_app_multi_ser.Network.Says.{typed_line-Displays}
use shell_chat_app_multi_ser.Packets.{Request, list, say, serv_say, who}
use shell_chat_app_multi_ser.Recent.Seen.{no_ids-Remembers}
use shell_chat_app_multi_ser.Server.Chat.{amend}
use shell_chat_app_multi_ser.Server.Peers.Forward.{passes_to}
use shell_chat_app_multi_ser.Server.Rooms.{Next, resub}
use shell_chat_app_multi_ser.Server.Rooms.Join.{add_member}
use shell_chat_app_multi_ser.Server.Say.Delivery.{is_subscribed}
use shell_chat_app_multi_ser.Server.Spec.Serves.{Shows}
use shell_chat_app_multi_ser.Server.State.{Datagram, State, done, told}
use shell_chat_app_multi_ser.Sockets.{Calls, destroy}
use shell_chat_app_multi_ser.Terminal.{Tty, raw, zero_termios}
use shell_chat_app_multi_ser.Tests.Courses.{talking-Shows, view}
use shell_chat_app_multi_ser.Tests.Setup.{
  ann, common_room, host, left, left-IsSound, open_channels, right, right-IsSound, rooms, ruby,
  ruby_room, talking, talking-Represents, users,
}
use shell_chat_app_multi_ser.Tests.Typing.{waiting, waiting-Waits}
use shell_chat_app_multi_ser.Wire.{Bytes, encode, field, int_bytes, parse, socket_recv}
use shell_chat_app_multi_ser.Wire.Requests.{parse-socket_recv}

abbrev good_calls : Calls
good_calls = record { socket = pos 3; bind = pos 0; getsockname = none }

-- The structures held sevens before.
abbrev surroundings : Surroundings
surroundings = record {
  inet_addr = length;
  calls = good_calls;
  first = true;
  second = true;
  get = true;
  set = true;
  old_username = replicate 32 7;
  old_channel = replicate 32 7;
}

abbrev terminal : Tty
terminal = record {
  term = record { echo = true; icanon = true; vmin = 1; vtime = 0; others = 5 };
  oldterm = zero_termios;
}

parse-socket_recv_example :
    parse
      (socket_recv 8192 (encode (serv_say 77 (codes "carol") ruby (codes "hi"))) (replicate 200 9))
    ≡ ok (serv_say 77 (codes "carol") ruby (codes "hi"))
parse-socket_recv_example =
    parse-socket_recv 8192 (serv_say 77 (codes "carol") ruby (codes "hi")) (replicate 200 9)
      ((omega arith), ((omega arith), refl), ((omega arith), refl), ((omega arith), refl))
      (omega arith)

typed_line-Displays_example :
    (c' : Client) × (rq : Request) × (s' : State) × (mails : List Datagram) × (on_line true
        (104 ∷ (codes "ello"))
        waiting
      ≡ ok c')
    × Waits c' 80 (common ∷ ruby ∷ [])
    × (c'.requests ≡ waiting.requests ++ rq ∷ [])
    × (receive_datagram 8192 200 77 (host 5001) (encode rq) [] talking ≡ done resub s')
    × (s'.sent
        ≡ talking.sent
          ++ (mails
              ++ map
                  (told (serv_say 77 ann.username waiting.active_channel (104 ∷ (codes "ello"))))
                  (keep (is_subscribed waiting.active_channel) talking.srvrs)))
    × (map (λ d. d.dest) mails ≡ map (λ w. w.address) ruby_room.members)
    × All
        (λ d.
          Displays 8192 d.message
            (shown_say waiting.active_channel ann.username (104 ∷ (codes "ello"))))
        mails
unfolding str_eq comp_sockaddr
typed_line-Displays_example =
    typed_line-Displays waiting 80 (common ∷ ruby ∷ []) 104 (codes "ello") 8192 8192 200 77
      (host 5001) [] talking users open_channels rooms ann ann ruby_room waiting-Waits refl
      (omega arith) ((omega arith), refl) ((omega arith), refl) (omega arith) (omega arith)
      talking-Represents (left-IsSound, (right-IsSound, tt)) refl refl refl ((omega arith), refl)
      (omega arith)

remote_say-Displays_example :
    (s' t' : State) × (front back : List Datagram) × (d : Datagram) × (mails : List Datagram)
    × (receive_datagram 8192 200 77 (host 5001) (encode (say ruby (codes "hi"))) [] talking
        ≡ done resub s')
    × (s'.sent ≡ talking.sent ++ (front ++ d ∷ back))
    × (d.dest ≡ left.addr)
    × (receive_datagram 8192 201 78 (host 4001) (message_bytes [] d.message) [] talking
        ≡ done resub t')
    × (t'.sent
        ≡ talking.sent
          ++ (mails
              ++ map
                  (told (serv_say 77 ann.username ruby (codes "hi")))
                  (keep (passes_to (host 4001) ruby) talking.srvrs)))
    × (map (λ e. e.dest) mails ≡ map (λ w. w.address) ruby_room.members)
    × All (λ e. Displays 8192 e.message (shown_say ruby ann.username (codes "hi"))) mails
unfolding str_eq comp_sockaddr
remote_say-Displays_example =
    remote_say-Displays 8192 8192 8192 200 201 77 78 (host 5001) (host 4001) [] [] talking users
      open_channels rooms talking users open_channels rooms [] ruby (codes "hi") ann ann ruby_room
      ruby_room [] (right ∷ []) left (omega arith) (omega arith) (omega arith) talking-Represents
      (left-IsSound, (right-IsSound, tt)) refl refl refl ((omega arith), refl) ((omega arith), refl)
      (omega arith) ((omega arith), refl) (omega arith) refl refl talking-Represents
      (left-IsSound, (right-IsSound, tt)) no_ids-Remembers refl refl (λ e. cc)

list_request-Displays_example :
    (s' : State) × (d : Datagram) × (receive_datagram 8192 200 77
        (host 5001)
        (encode list)
        []
        talking
      ≡ done resub s')
    × (s'.sent ≡ talking.sent ++ d ∷ [])
    × (d.dest ≡ (host 5001))
    × (on_datagram 8192 (message_bytes (replicate 64 0) d.message)
        ≡ ok (record {
          out =
              replicate 50 8
              ++ (((codes "Existing Channels:" ++ 0 ∷ [])
                    ++ lines (replicate 64 0) (map (λ r. r.name) rooms))
                  ++ codes "\n> ");
          errors = [];
        }))
list_request-Displays_example =
    list_request-Displays 8192 8192 200 77 (host 5001) [] (replicate 64 0) talking users
      open_channels rooms (omega arith) (omega arith) talking-Represents
      ((omega arith), ((omega arith), tt)) (omega arith)

who_request-Displays_example :
    (s' : State) × (d : Datagram) × (receive_datagram 8192 200 77
        (host 5001)
        (encode (who common))
        []
        talking
      ≡ done resub s')
    × (s'.sent ≡ talking.sent ++ d ∷ [])
    × (d.dest ≡ (host 5001))
    × Displays 8192 d.message (shown_who common (map (λ u. u.username) common_room.members))
unfolding str_eq comp_sockaddr
who_request-Displays_example =
    who_request-Displays 8192 8192 200 77 (host 5001) [] talking users open_channels rooms common
      common_room (omega arith) (omega arith) talking-Represents refl ((omega arith), refl)
      (omega arith) (omega arith) ((omega arith), ((omega arith), tt)) (refl, (refl, tt))

started_client-Shows_example :
    (c : Connection) × (login_bytes join_bytes : Bytes) × (next next' : Next) × (s' s'' : State)
    × (start_main surroundings 8192
          ((codes "client") ∷ localhost ∷ decimal 4001 ∷ (codes "eve") ∷ [])
          terminal
        ≡ ok (connected c))
    × (c.datagrams ≡ login_bytes ∷ join_bytes ∷ [])
    × (receive_datagram 8192 200 77 (host 5003) login_bytes [] talking ≡ done next s')
    × (receive_datagram 8192 201 78 (host 5003) join_bytes [] s' ≡ done next' s'')
    × Shows s'' (record {
      us = view.us ++ newcomer (host 5003) (codes "eve") view ∷ [];
      rooms = amend common (add_member (newcomer (host 5003) (codes "eve") view)) view.rooms;
      next = suc view.next;
      ids = view.ids;
    })
    × (s''.srvrs ≡ talking.srvrs)
unfolding str_eq comp_sockaddr
started_client-Shows_example =
    started_client-Shows surroundings 8192 (codes "client") localhost 4001 (codes "eve") terminal
      8192 200 201 77 78 (host 5003) [] [] talking view common_room (ruby_room ∷ []) refl refl refl
      refl (omega arith) (omega arith) ((omega arith), refl) (omega arith) (omega arith)
      (omega arith) talking-Shows refl refl (omega arith) (omega arith) refl refl

start_main-connects_example :
    (c : Connection) × (start_main surroundings 8192
        ((codes "client") ∷ localhost ∷ decimal 4001 ∷ (codes "eve") ∷ [])
        terminal
      ≡ ok (connected c))
    × (c.tty.term ≡ raw terminal.term)
    × (c.server_addr.sin_addr
        ≡ surroundings.inet_addr
            (if str_eq localhost localhost then codes "127.0.0.1" else localhost))
    × (ntohs c.server_addr.sin_port ≡ 4001)
    × (c.datagrams
        ≡ (int_bytes 0 ++ field 32 (codes "eve") surroundings.old_username)
          ∷ (int_bytes 2 ++ field 32 common surroundings.old_channel)
          ∷ [])
    × ((end_main true c).term ≡ terminal.term)
    × (destroy c.handler c.blocks ≡ 0)
start_main-connects_example =
    start_main-connects surroundings 8192 (codes "client") localhost 4001 (codes "eve") [] terminal
      refl refl refl refl (omega arith) (omega arith) (omega arith)
