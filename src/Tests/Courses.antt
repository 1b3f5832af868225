-- ===== src/Tests/Courses.antt =====
-- Courses: three rounds, in which Bob joins a room, speaks in it, and hears a say from another server.
use shell_chat_app_multi_ser.Base.{All, [], arith, codes, refl, str_eq, ◌∷◌, ◌≡◌}
use shell_chat_app_multi_ser.Channels.{comp_sockaddr}
use shell_chat_app_multi_ser.Packets.{join, say, serv_say}
use shell_chat_app_multi_ser.Recent.Seen.{no_ids-Remembers}
use shell_chat_app_multi_ser.Server.Chat.{Room}
use shell_chat_app_multi_ser.Server.Rooms.{Next}
use shell_chat_app_multi_ser.Server.Rooms.Join.{add_member}
use shell_chat_app_multi_ser.Server.Round.{Event, dispatch, packet, run}
use shell_chat_app_multi_ser.Server.Round.Check.{IsRenewed}
use shell_chat_app_multi_ser.Server.Spec.{Permitted, View, hear, join_room, result, say_in}
use shell_chat_app_multi_ser.Server.Spec.Course.{Course, ended, goes_on, run-Shows}
use shell_chat_app_multi_ser.Server.Spec.Refinement.{dispatch-Shows}
use shell_chat_app_multi_ser.Server.Spec.Serves.{Shows}
use shell_chat_app_multi_ser.Server.State.{State, done}
use shell_chat_app_multi_ser.Tests.Rounds.{left-IsRenewed, right-IsRenewed}
use shell_chat_app_multi_ser.Tests.Setup.{
  ann, bob, common_room, host, left-IsSound, open_channels, right-IsSound, rooms, ruby, ruby_room,
  talking, talking-Represents, users,
}

abbrev pub view : View
view = record { us = users; rooms = rooms; next = 2; ids = [] }

pub talking-Shows : Shows talking view
talking-Shows = record {
  chs = open_channels;
  tables = talking-Represents;
  counter = refl;
  neighbours = (left-IsSound, (right-IsSound, tt));
  remembered = no_ids-Remembers;
}

bob_joins : Permitted view (host 5002) (join ruby)
unfolding str_eq comp_sockaddr
bob_joins = join_room bob ruby ruby_room refl refl (omega arith) (omega arith)

abbrev bigger_room : Room
bigger_room = add_member bob ruby_room

abbrev view_later : View
view_later = record view { rooms = common_room ∷ bigger_room ∷ [] }

abbrev view_spoken : View
view_spoken = record view_later { ids = 8 ∷ [] }

bob_says : Permitted view_later (host 5002) (say ruby (codes "hi"))
unfolding str_eq comp_sockaddr
bob_says =
    say_in bob bob ruby (codes "hi") bigger_room refl refl refl (omega arith) (omega arith)
      (omega arith) (omega arith) (omega arith)

abbrev joining : Event
joining = record {
  checked = 150;
  handled = 150;
  renewed = 150;
  random = 7;
  arrival = packet (host 5002) (join ruby);
}

abbrev saying : Event
saying = record {
  checked = 150;
  handled = 150;
  renewed = 150;
  random = 8;
  arrival = packet (host 5002) (say ruby (codes "hi"));
}

abbrev view_heard : View
view_heard = record view_spoken { ids = 8 ∷ 9 ∷ [] }

say_heard : Permitted view_spoken (host 6001) (serv_say 9 (codes "eve") ruby (codes "yo"))
unfolding str_eq
say_heard =
    hear 9 (codes "eve") ruby (codes "yo") bigger_room ann (bob ∷ []) refl refl refl (omega arith)
      (omega arith) (omega arith) (omega arith)

abbrev hearing : Event
hearing = record {
  checked = 150;
  handled = 150;
  renewed = 150;
  random = 10;
  arrival = packet (host 6001) (serv_say 9 (codes "eve") ruby (codes "yo"));
}

bob-Course : Course view (joining ∷ saying ∷ hearing ∷ []) view_heard
unfolding str_eq comp_sockaddr bob_joins bob_says say_heard
bob-Course =
    goes_on view joining (saying ∷ hearing ∷ []) (host 5002) (join ruby) bob_joins view_heard refl
      ((omega arith), ((omega arith), tt))
      (goes_on view_later saying (hearing ∷ []) (host 5002) (say ruby (codes "hi")) bob_says
        view_heard refl ((omega arith), ((omega arith), tt))
        (goes_on view_spoken hearing [] (host 6001) (serv_say 9 (codes "eve") ruby (codes "yo"))
          say_heard view_heard refl ((omega arith), ((omega arith), tt)) (ended view_heard)))

All-IsRenewed : All (IsRenewed 150) talking.srvrs
All-IsRenewed = (left-IsRenewed, (right-IsRenewed, tt))

run-Shows_example :
    (s' : State) × (run (joining ∷ saying ∷ hearing ∷ []) talking ≡ done tt s')
    × Shows s' view_heard
    × (s'.srvrs ≡ talking.srvrs)
run-Shows_example =
    run-Shows (joining ∷ saying ∷ hearing ∷ []) talking view view_heard talking-Shows bob-Course
      (All-IsRenewed, (All-IsRenewed, (All-IsRenewed, tt)))

dispatch-Shows_example :
    (next : Next) × (s' : State) × (dispatch 150 7 (host 5002) (join ruby) talking ≡ done next s')
    × Shows s' (result view (host 5002) 150 7 (join ruby) bob_joins)
    × (s'.srvrs ≡ talking.srvrs)
dispatch-Shows_example =
    dispatch-Shows 150 7 talking view (host 5002) (join ruby) talking-Shows bob_joins
