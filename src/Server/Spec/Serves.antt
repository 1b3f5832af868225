-- ===== src/Server/Spec/Serves.antt =====
-- What it means that the state of a server stands for a view, and that a request is served on that view:
-- LOGIN and LEAVE, and what the other cases share.
use shell_chat_app_multi_ser.Base.{
  ℕ, suc, ◌<◌, ◌≡◌, ◌∙◌, refl, ap, some, List, [], ◌∷◌, ◌++◌, length, any, All, erase_first,
  find_first, Text, true, false,
}
use shell_chat_app_multi_ser.Duckchat.{Address, channel_max, max_users}
use shell_chat_app_multi_ser.Channels.{User, Channel}
use shell_chat_app_multi_ser.Channels.Remove.{named}
use shell_chat_app_multi_ser.Packets.{Request, login, leave}
use shell_chat_app_multi_ser.Recent.{Recent}
use shell_chat_app_multi_ser.Adjacent.Subs.{IsSound}
use shell_chat_app_multi_ser.Directory.Laws.{at_address}
use shell_chat_app_multi_ser.Server.State.{State, Datagram, done}
use shell_chat_app_multi_ser.Server.Chat.{Room, AreRooms, Represents, room_named, Represents-aside}
use shell_chat_app_multi_ser.Server.Users.Login.{handle_login-adds}
use shell_chat_app_multi_ser.Recent.Seen.{Remembers}
use shell_chat_app_multi_ser.Server.Rooms.{Next, resub}
use shell_chat_app_multi_ser.Server.Rooms.Leave.{handle_leave-leaves, handle_leave-closes}
use shell_chat_app_multi_ser.Server.Round.{dispatch}
use shell_chat_app_multi_ser.Server.Spec.{View, left}

-- The server's state stands for the view, and its neighbours are sound.
pub record Shows (s : State) (v : View) : Type 0 where
  pub chs : List Channel
  pub tables : Represents s v.us chs v.rooms
  pub counter : s.heap.next ≡ v.next
  pub neighbours : All IsSound s.srvrs
  pub remembered : Remembers s.recent v.ids

-- The request is handled without a fault, and leaves a state that stands for the view.
abbrev pub Serves : ℕ → ℕ → Address → Request → State → View → Type 0
Serves now random from rq s v =
    (next : Next) × (s' : State) × (dispatch now random from rq s ≡ done next s')
    × Shows s' v
    × (s'.srvrs ≡ s.srvrs)

pub length-AreRooms :
    (s : State) (chs : List Channel) (rooms : List Room)
    → AreRooms s.heap chs rooms
    → length chs ≡ length rooms
length-AreRooms s [] [] h = refl
length-AreRooms s [] (r ∷ rooms) h = absurd h
length-AreRooms s (c ∷ chs) [] h = absurd h
length-AreRooms s (c ∷ chs) (r ∷ rooms) h = ap suc (length-AreRooms s chs rooms h.1)

-- What was sent is no part of the view.
pub unsent :
    (s : State) (v : View) (recent : Recent) (ids : List ℕ) (sent : List Datagram)
    → Shows s v
    → Remembers recent ids
    → Shows (record s { recent = recent; sent = sent }) (record v { ids = ids })
unsent s v recent ids sent h m = record {
  chs = h.chs;
  tables = Represents-aside s v.us h.chs v.rooms s.srvrs recent sent s.stray_writes h.tables;
  counter = h.counter;
  neighbours = h.neighbours;
  remembered = m;
}

pub login-Serves :
    (now random : ℕ) (s : State) (us : List User) (chs : List Channel) (from : Address)
    (name : Text) (r : Room) (rooms : List Room) (ids : List ℕ)
    → Represents s us chs (r ∷ rooms)
    → All IsSound s.srvrs
    → Remembers s.recent ids
    → length name < 32
    → length us < max_users
    → length r.members < max_users
    → any (named name) r.members ≡ false
    → Serves now random from (login name) s (record {
      us = us ++ record { id = s.heap.next; username = name; address = from; addresslen = 16 } ∷ [];
      rooms = r ∷ rooms;
      next = suc s.heap.next;
      ids = ids;
    })
unfolding dispatch
login-Serves now random s us [] from name r rooms ids v sound m e1 e2 e3 e4 = absurd v.rooms_of
login-Serves now random s us (c ∷ chs) from name r rooms ids v sound m e1 e2 e3 e4 =
    let (s', c', e, v', srvrs, recent, sent, next) =
      handle_login-adds s us c chs r rooms from name v e1 e2 e3 e4 in
    (
      resub,
      s',
      rw e refl,
      record {
        chs = c' ∷ chs;
        tables = v';
        counter = next;
        neighbours = rw srvrs sound;
        remembered = rw recent m;
      },
      srvrs,
    )

pub leave-Serves :
    (now random : ℕ) (s : State) (us : List User) (chs : List Channel) (rooms : List Room)
    (from : Address) (name : Text) (u : User) (r : Room) (ws : List User) (ids : List ℕ)
    → Represents s us chs rooms
    → All IsSound s.srvrs
    → Remembers s.recent ids
    → find_first (at_address from) us ≡ some u
    → find_first (room_named name) rooms ≡ some r
    → any (named u.username) r.members ≡ true
    → erase_first (named u.username) r.members ≡ ws
    → length name < channel_max
    → Serves now random from
        (leave name)
        s
        (record { us = us; rooms = left name u rooms ws; next = s.heap.next; ids = ids })
unfolding dispatch
leave-Serves now random s us chs rooms from name u r [] ids v sound m e1 e2 e3 rest e4 =
    let (channels, chs', (e, v')) =
      handle_leave-closes s us chs rooms from name u r v e1 e2 e3 rest e4 in
    (
      resub,
      _,
      e,
      record { chs = chs'; tables = v'; counter = refl; neighbours = sound; remembered = m },
      refl,
    )
leave-Serves now random s us chs rooms from name u r (w ∷ ws) ids v sound m e1 e2 e3 rest e4 =
    let (channels, chs', (e, v')) =
      handle_leave-leaves s us chs rooms from name u w r ws v e1 e2 e3 rest in
    (
      resub,
      _,
      e,
      record { chs = chs'; tables = v'; counter = refl; neighbours = sound; remembered = m },
      refl,
    )

-- Rooms that change leave users, neighbours and ids as they are.
pub with_rooms :
    (s t : State) (v : View) (us : List User) (rooms : List Room) (chs : List Channel)
    → Shows s v
    → t.heap.next ≡ s.heap.next
    → t.srvrs ≡ s.srvrs
    → t.recent ≡ s.recent
    → Represents t us chs rooms
    → Shows t (record v { us = us; rooms = rooms })
with_rooms s t v us rooms chs h next srvrs recent tables = record {
  chs = chs;
  tables = tables;
  counter = next ∙ h.counter;
  neighbours = rw srvrs h.neighbours;
  remembered = rw recent h.remembered;
}
