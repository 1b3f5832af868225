-- ===== src/Tests/Rooms.antt =====
-- Rooms: joining, leaving, and what is told of them.
use shell_chat_app_multi_ser.Adjacent.{stray_count}
use shell_chat_app_multi_ser.Base.{
  List, [], arith, buffer_overflow, codes, erase_first, length, ltb, map, not, pos, refl, replicate,
  str_eq, ◌++◌, ◌+◌, ◌∷◌, ◌≡◌,
}
use shell_chat_app_multi_ser.Cells.{Cells, full, uninit}
use shell_chat_app_multi_ser.Channels.{Channel, User, comp_sockaddr}
use shell_chat_app_multi_ser.Duckchat.{common, max_users}
use shell_chat_app_multi_ser.Packets.{
  cannot_find, channel_quote, not_exist, serv_join, serv_leave, text_error,
}
use shell_chat_app_multi_ser.Server.Chat.{Represents, Room, amend, room_named}
use shell_chat_app_multi_ser.Server.Rooms.{handle_join, handle_leave, handle_who, next_round, resub}
use shell_chat_app_multi_ser.Server.Rooms.Info.{unknown_channel_reported}
use shell_chat_app_multi_ser.Server.Rooms.Join.{
  add_member, handle_join-enters, handle_join-opens, opened,
}
use shell_chat_app_multi_ser.Server.Rooms.Leave.{handle_leave-closes}
use shell_chat_app_multi_ser.Server.Rooms.Who.{handle_who_overflow}
use shell_chat_app_multi_ser.Server.State.{State, done, failed, to_client, told}
use shell_chat_app_multi_ser.Server.State.Loops.{sends}
use shell_chat_app_multi_ser.Tests.Setup.{
  absent_name, ann, bob, host, open_channels, rooms, ruby, ruby_room, talking, talking-Represents,
  users,
}

-- A user whose name has 28 bytes.
abbrev long_user : User
long_user = record {
  id = 0;
  username = codes "abcdefghijklmnopqrstuvwxyz01";
  address = host 5009;
  addresslen = 16;
}

abbrev long_channel : Channel
long_channel = record {
  chnl_name = common;
  connected_users = full long_user ∷ replicate 31 uninit;
  num_users = pos 1;
  tm = 100;
}

abbrev long_room : Room
long_room = record { name = common; members = long_user ∷ []; time = 100 }

abbrev crowded : State
crowded = record talking {
  channels = full long_channel ∷ replicate 31 uninit;
  num_chnnls = pos 1;
  all_users = full long_user ∷ replicate 31 uninit;
  num_users = pos 1;
}

crowded-Represents : Represents crowded (long_user ∷ []) (long_channel ∷ []) (long_room ∷ [])
crowded-Represents = record {
  users = ((refl, tt), refl);
  users_size = refl;
  users_live = (refl, tt);
  channels = ((refl, tt), refl);
  channels_size = refl;
  rooms_of = (
    record {
      joined = record { held = ((refl, tt), refl); live = (refl, tt); size = refl };
      called = refl;
      timed = refl;
    },
    tt,
  );
  rising = omega arith;
  freed_below = tt;
}

handle_join-enters_example :
    (channels : Cells Channel) × (chs' : List Channel) × (let s' =
        record (sends talking (map (told (serv_join ruby)) talking.srvrs)) {
          channels = channels;
        } in
      (handle_join 200 (host 5002) ruby talking ≡ done resub s')
      × Represents s' users chs' (amend ruby (add_member bob) rooms))
unfolding str_eq comp_sockaddr
handle_join-enters_example =
    handle_join-enters 200 talking users open_channels rooms (host 5002) ruby bob ruby_room
      talking-Represents refl refl (omega arith) (omega arith)

handle_join-opens_example :
    (channels : Cells Channel) × (chs' : List Channel) × (let s' =
        record (sends talking (map (told (serv_join absent_name)) talking.srvrs)) {
          channels = channels;
          num_chnnls = pos (length chs');
        } in
      (handle_join 200 (host 5002) absent_name talking ≡ done resub s')
      × Represents s' users chs' (rooms ++ opened absent_name bob 200 ∷ []))
unfolding str_eq comp_sockaddr
handle_join-opens_example =
    handle_join-opens 200 talking users open_channels rooms (host 5002) absent_name bob
      talking-Represents refl refl (omega arith) (omega arith)

handle_leave-closes_example :
    (channels : Cells Channel) × (chs' : List Channel) × (let s' =
        record (sends talking (map (told (serv_leave ruby)) talking.srvrs)) {
          channels = channels;
          num_chnnls = pos (length chs');
          stray_writes =
              talking.stray_writes + stray_count (not (ltb (length open_channels) max_users));
        } in
      (handle_leave (host 5001) ruby talking ≡ done resub s')
      × Represents s' users chs' (erase_first (room_named ruby) rooms))
unfolding str_eq comp_sockaddr
handle_leave-closes_example =
    handle_leave-closes talking users open_channels rooms (host 5001) ruby ann ruby_room
      talking-Represents refl refl refl refl (omega arith)

handle_who_overflow_example : handle_who (host 5009) common crowded ≡ failed buffer_overflow crowded
unfolding str_eq comp_sockaddr
handle_who_overflow_example =
    handle_who_overflow crowded (long_user ∷ []) (long_channel ∷ []) (long_room ∷ []) (host 5009)
      common long_room [] long_user crowded-Represents refl (omega arith) (omega arith) refl
      (omega arith) (omega arith)

unknown_channel_reported_example :
    (handle_leave (host 5001) absent_name talking
      ≡ done next_round (
          sends talking (
            record {
              dest = (host 5001);
              message = to_client (text_error (cannot_find ++ absent_name));
            }
            ∷ [])))
    × (handle_who (host 5001) absent_name talking
        ≡ done next_round (
            sends talking (
              record {
                dest = (host 5001);
                message = to_client (text_error ((channel_quote ++ absent_name) ++ not_exist));
              }
              ∷ [])))
unfolding str_eq comp_sockaddr
unknown_channel_reported_example =
    unknown_channel_reported talking users open_channels rooms (host 5001) absent_name
      talking-Represents refl (omega arith) (omega arith)
