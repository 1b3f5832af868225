-- ===== src/Tests/Peers.antt =====
-- Peers: subscriptions of adjacent servers and the says they hand on.
use shell_chat_app_multi_ser.Adjacent.{Server, addr_cmp, find_server_address}
use shell_chat_app_multi_ser.Adjacent.Subs.{IsSound, subs}
use shell_chat_app_multi_ser.Base.{
  [], arith, codes, init, length, map, out_of_bounds, pos, refl, replicate, set, str_eq, ◌++◌, ◌+◌,
  ◌∷◌, ◌≡◌,
}
use shell_chat_app_multi_ser.Cells.{Cells, full, uninit}
use shell_chat_app_multi_ser.Channels.{Channel, comp_sockaddr}
use shell_chat_app_multi_ser.Duckchat.{common, max_users}
use shell_chat_app_multi_ser.Packets.{serv_join}
use shell_chat_app_multi_ser.Recent.{no_ids, record_id}
use shell_chat_app_multi_ser.Recent.Seen.{no_ids-Remembers}
use shell_chat_app_multi_ser.Server.Chat.{Represents, Room}
use shell_chat_app_multi_ser.Server.Peers.{handle_serv_join, handle_serv_leave, handle_serv_say}
use shell_chat_app_multi_ser.Server.Peers.DeadEnds.{handle_serv_say-dead_end, leave_to}
use shell_chat_app_multi_ser.Server.Peers.Forward.{
  hand_on, handle_serv_say-forwards, handle_serv_say_once, handle_serv_say_overrun,
}
use shell_chat_app_multi_ser.Server.Peers.Subscribe.{
  handle_serv_join-opens, handle_serv_leave_drops_last,
}
use shell_chat_app_multi_ser.Server.State.{State, done, failed, told}
use shell_chat_app_multi_ser.Server.State.Loops.{sends}
use shell_chat_app_multi_ser.Tests.Setup.{
  absent_name, host, left, left-IsSound, open_channels, right, right-IsSound, rooms, ruby,
  ruby_room, talking, talking-Represents, users,
}

abbrev quiet_channel : Channel
quiet_channel = record {
  chnl_name = ruby;
  connected_users = replicate max_users uninit;
  num_users = pos 0;
  tm = 100;
}

abbrev quiet_room : Room
quiet_room = record { name = ruby; members = []; time = 100 }

-- A server without users, whose only subscriber to Ruby is the neighbour `left`.
abbrev relaying : State
relaying = record {
  srvrs = left ∷ right ∷ [];
  recent = no_ids;
  channels = full quiet_channel ∷ replicate 31 uninit;
  num_chnnls = pos 1;
  all_users = replicate max_users uninit;
  num_users = pos 0;
  heap = record { next = 0; freed = [] };
  sent = [];
  stray_writes = 0;
}

relaying-Represents : Represents relaying [] (quiet_channel ∷ []) (quiet_room ∷ [])
relaying-Represents = record {
  users = (tt, refl);
  users_size = refl;
  users_live = tt;
  channels = ((refl, tt), refl);
  channels_size = refl;
  rooms_of = (
    record {
      joined = record { held = (tt, refl); live = tt; size = refl };
      called = refl;
      timed = refl;
    },
    tt,
  );
  rising = omega arith;
  freed_below = tt;
}

-- A server that has counted past the end of its ids.
abbrev overrun : State
overrun = record talking { recent = record { recent_ids = replicate 1024 0; num_ids = 1025 } }

handle_serv_say-forwards_example :
    handle_serv_say (host 4002) 77 (codes "carol") ruby (codes "hi") talking
    ≡ done tt
        (record (sends talking
          (hand_on (host 4002) 77 (codes "carol") ruby (codes "hi") ruby_room talking.srvrs)) {
            recent = record_id talking.recent 77;
          })
unfolding str_eq comp_sockaddr
handle_serv_say-forwards_example =
    handle_serv_say-forwards talking users open_channels rooms [] (host 4002) 77 (codes "carol")
      ruby (codes "hi") ruby_room talking-Represents (left-IsSound, (right-IsSound, tt))
      no_ids-Remembers refl refl (λ e. cc) (omega arith) (omega arith) (omega arith)

handle_serv_say_once_example :
    (t : State) × (handle_serv_say (host 4002) 77 (codes "carol") ruby (codes "hi") talking
      ≡ done tt t)
    × (handle_serv_say (host 4003) 77 (codes "carol") ruby (codes "hi") t
        ≡ done tt (sends t (leave_to (host 4003) ruby ∷ [])))
unfolding str_eq comp_sockaddr
handle_serv_say_once_example =
    handle_serv_say_once talking users open_channels rooms [] (host 4002) (host 4003) 77
      (codes "carol") ruby (codes "hi") ruby_room talking-Represents
      (left-IsSound, (right-IsSound, tt)) no_ids-Remembers (omega arith) refl refl (λ e. cc)
      (omega arith) (omega arith) (omega arith)

handle_serv_say-dead_end_example :
    handle_serv_say (host 4002) 77 (codes "carol") ruby (codes "hi") relaying
    ≡ done tt (record (sends relaying (leave_to (host 4002) ruby ∷ [])) {
      recent = record_id relaying.recent 77;
    })
unfolding str_eq comp_sockaddr
handle_serv_say-dead_end_example =
    handle_serv_say-dead_end relaying [] (quiet_channel ∷ []) (quiet_room ∷ []) [] (host 4002) 77
      (codes "carol") ruby (codes "hi") quiet_room relaying-Represents
      (left-IsSound, (right-IsSound, tt)) no_ids-Remembers refl refl refl (omega arith)
      (omega arith)

handle_serv_say_overrun_example :
    handle_serv_say (host 4002) 77 (codes "carol") ruby (codes "hi") overrun
    ≡ failed out_of_bounds overrun
handle_serv_say_overrun_example =
    handle_serv_say_overrun overrun (host 4002) 77 (codes "carol") ruby (codes "hi") (omega arith)
      refl

handle_serv_join-opens_example :
    (srvr' : Server) × (c : Channel) × (channels : Cells Channel) × (let srvrs =
        set talking.srvrs 0 srvr' in
      let s' = record (sends talking (map (told (serv_join absent_name)) srvrs)) {
        srvrs = srvrs;
        channels = channels;
        num_chnnls = pos (length (open_channels ++ c ∷ []));
      } in
      (handle_serv_join 200 (host 4002) absent_name talking ≡ done tt s')
      × IsSound srvr'
      × (subs srvr' ≡ subs left ++ absent_name ∷ [])
      × (srvr'.addr ≡ left.addr)
      × Represents s' users
          (open_channels ++ c ∷ [])
          (rooms ++ record { name = absent_name; members = []; time = 200 } ∷ []))
unfolding str_eq comp_sockaddr find_server_address addr_cmp
handle_serv_join-opens_example =
    handle_serv_join-opens 200 talking users open_channels rooms (host 4002) absent_name 0 left
      talking-Represents refl refl left-IsSound (omega arith) refl (omega arith) refl (omega arith)

handle_serv_leave_drops_last_example :
    (handle_serv_leave (host 4002) common talking
      ≡ done tt (record talking {
        srvrs = set talking.srvrs 0 (record left { num_chnnls = pos 1 });
        stray_writes = talking.stray_writes + 2;
      }))
    × (subs (record left { num_chnnls = pos 1 }) ≡ init (subs left))
unfolding str_eq comp_sockaddr find_server_address addr_cmp
handle_serv_leave_drops_last_example =
    handle_serv_leave_drops_last talking (host 4002) common 0 1 left refl refl left-IsSound refl
