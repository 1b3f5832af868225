-- ===== src/Tests/Users.antt =====
-- Users: what they say, and how they come and go.
use shell_chat_app_multi_ser.Base.{
  List, [], arith, codes, decr, erase_first, map, null_deref, refl, str_eq, suc, ◌++◌, ◌∷◌, ◌≡◌,
}
use shell_chat_app_multi_ser.Cells.{Cells}
use shell_chat_app_multi_ser.Channels.{Channel, User, comp_sockaddr, new_user}
use shell_chat_app_multi_ser.Directory.Laws.{at_address}
use shell_chat_app_multi_ser.Packets.{cannot_find, text_error}
use shell_chat_app_multi_ser.Recent.{record_id}
use shell_chat_app_multi_ser.Server.Chat.{Represents}
use shell_chat_app_multi_ser.Server.Say.{handle_say}
use shell_chat_app_multi_ser.Server.Say.Delivery.{handle_say-delivers, says}
use shell_chat_app_multi_ser.Server.Say.Failures.{handle_say_stranger, handle_say_unknown}
use shell_chat_app_multi_ser.Server.State.{State, done, failed, to_client}
use shell_chat_app_multi_ser.Server.State.Loops.{sends}
use shell_chat_app_multi_ser.Server.Users.{addr_len, handle_login, handle_logout}
use shell_chat_app_multi_ser.Server.Users.Dropping.{after_logout}
use shell_chat_app_multi_ser.Server.Users.Login.{handle_login-adds}
use shell_chat_app_multi_ser.Server.Users.Logout.{freed_heap, handle_logout-removes}
use shell_chat_app_multi_ser.Tests.Setup.{
  absent_name, ann, common_channel, common_room, host, left-IsSound, open_channels, right-IsSound,
  rooms, ruby, ruby_channel, ruby_room, talking, talking-Represents, users,
}

handle_say-delivers_example :
    handle_say 77 (host 5001) ruby (codes "hi") talking
    ≡ done tt (record (sends talking (says 77 ruby (codes "hi") ann ann ruby_room talking.srvrs)) {
      recent = record_id talking.recent 77;
    })
unfolding str_eq comp_sockaddr
handle_say-delivers_example =
    handle_say-delivers 77 talking users open_channels rooms (host 5001) ruby (codes "hi") ann ann
      ruby_room talking-Represents (left-IsSound, (right-IsSound, tt)) refl refl refl (omega arith)
      (omega arith) (omega arith) (omega arith)

handle_say_unknown_example :
    handle_say 77 (host 5001) absent_name (codes "hi") talking
    ≡ failed null_deref (
        sends talking (
          record {
            dest = (host 5001);
            message = to_client (text_error (cannot_find ++ absent_name));
          }
          ∷ []))
unfolding str_eq comp_sockaddr
handle_say_unknown_example =
    handle_say_unknown 77 talking users open_channels rooms (host 5001) absent_name (codes "hi")
      talking-Represents refl (omega arith)

handle_say_stranger_example :
    handle_say 77 (host 5002) ruby (codes "hi") talking ≡ failed null_deref talking
unfolding str_eq comp_sockaddr
handle_say_stranger_example =
    handle_say_stranger 77 talking users open_channels rooms (host 5002) ruby (codes "hi") ruby_room
      ann [] talking-Represents refl refl refl (omega arith) (omega arith)

handle_login-adds_example :
    (s' : State) × (c' : Channel) × (handle_login (host 5003) (codes "eve") talking ≡ done tt s')
    × Represents s'
        (users ++ new_user talking.heap (codes "eve") (host 5003) addr_len ∷ [])
        (c' ∷ (ruby_channel ∷ []))
        (common_room ∷ (ruby_room ∷ []))
    × (s'.srvrs ≡ talking.srvrs)
    × (s'.recent ≡ talking.recent)
    × (s'.sent ≡ talking.sent)
    × (s'.heap.next ≡ suc talking.heap.next)
unfolding str_eq comp_sockaddr
handle_login-adds_example =
    handle_login-adds talking users common_channel (ruby_channel ∷ []) common_room (ruby_room ∷ [])
      (host 5003) (codes "eve") talking-Represents (omega arith) (omega arith) (omega arith) refl

handle_logout-removes_example :
    (channels : Cells Channel) × (all_users : Cells User) × (chs' : List Channel) × (let s' =
        record talking {
          channels = channels;
          all_users = all_users;
          num_users = decr talking.num_users;
          heap = freed_heap talking.heap ann;
        } in
      (handle_logout (host 5001) talking ≡ done tt s')
      × Represents s'
          (erase_first (at_address (host 5001)) users)
          chs'
          (map (after_logout ann.username) rooms))
unfolding str_eq comp_sockaddr
handle_logout-removes_example =
    handle_logout-removes talking users open_channels rooms (host 5001) ann talking-Represents refl
      ((λ e. cc), ((λ e. cc), tt)) ((refl, tt), (tt, tt))
