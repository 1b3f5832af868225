-- ===== src/Server/Chat.antt =====
-- What a server's tables stand for: the users that are logged in and the rooms with their members.
pub mod Heaps
pub mod Locate
use shell_chat_app_multi_ser.Base.{
  ℕ, suc, ◌≤◌, ◌<◌, ◌≡◌, Bool, All, List, [], ◌∷◌, Text, str_eq, length, if◌then◌else◌, ℤ,
}
use shell_chat_app_multi_ser.Duckchat.{max_users}
use shell_chat_app_multi_ser.Cells.{Cells}
use shell_chat_app_multi_ser.Cells.Holds.{Holds}
use shell_chat_app_multi_ser.Channels.{User, Heap, Channel}
use shell_chat_app_multi_ser.Channels.Members.{Members, IsLive}
use shell_chat_app_multi_ser.Adjacent.{Server}
use shell_chat_app_multi_ser.Recent.{Recent}
use shell_chat_app_multi_ser.Server.State.{State, Datagram}

pub record Room : Type 0 where
  pub name : Text
  pub members : List User
  pub time : ℕ

pub record IsRoom (heap : Heap) (chnl : Channel) (room : Room) : Type 0 where
  pub joined : Members heap chnl room.members
  pub called : chnl.chnl_name ≡ room.name
  pub timed : chnl.tm ≡ room.time

-- Channel by channel.
abbrev pub AreRooms : Heap → List Channel → List Room → Type 0
AreRooms heap [] [] = Unit
AreRooms heap [] (r ∷ rooms) = ⊥
AreRooms heap (c ∷ chs) [] = ⊥
AreRooms heap (c ∷ chs) (r ∷ rooms) = IsRoom heap c r × AreRooms heap chs rooms

-- The users stand in the order in which they were made, and below the next number.
abbrev pub Rising : ℕ → List User → ℕ → Type 0
Rising low [] next = low ≤ next
Rising low (u ∷ us) next = (low ≤ u.id) × Rising (suc u.id) us next

-- The server's tables hold these users and rooms, in order; no user is freed, and the numbers in use
-- and those that were freed are below the next one.
pub record Represents (s : State) (us : List User) (chs : List Channel) (rooms : List Room)
    : Type 0 where
  pub users : Holds s.all_users s.num_users us
  pub users_size : length s.all_users ≡ max_users
  pub users_live : IsLive s.heap us
  pub channels : Holds s.channels s.num_chnnls chs
  pub channels_size : length s.channels ≡ max_users
  pub rooms_of : AreRooms s.heap chs rooms
  pub rising : Rising 0 us s.heap.next
  pub freed_below : All (λ k. k < s.heap.next) s.heap.freed

abbrev pub room_named : Text → Room → Bool
room_named name room = str_eq room.name name

-- The first room of that name is changed.
abbrev pub amend : Text → (Room → Room) → List Room → List Room
amend name f [] = []
amend name f (r ∷ rooms) =
    let rest = amend name f rooms in if room_named name r then f r ∷ rooms else r ∷ rest

-- The tables stand for the same whatever was sent, and whatever the neighbours and the ids are.
pub Represents-aside :
    (s : State) (us : List User) (chs : List Channel) (rooms : List Room) (srvrs : List Server)
    (recent : Recent) (sent : List Datagram) (strays : ℕ)
    → Represents s us chs rooms
    → Represents
        (record s { srvrs = srvrs; recent = recent; sent = sent; stray_writes = strays })
        us
        chs
        rooms
Represents-aside s us chs rooms srvrs recent sent strays v = record {
  users = v.users;
  users_size = v.users_size;
  users_live = v.users_live;
  channels = v.channels;
  channels_size = v.channels_size;
  rooms_of = v.rooms_of;
  rising = v.rising;
  freed_below = v.freed_below;
}

-- The same with other channels and rooms.
pub Represents-rooms :
    (s : State) (us : List User) (chs chs' : List Channel) (rooms rooms' : List Room)
    (srvrs : List Server) (recent : Recent) (sent : List Datagram) (strays : ℕ)
    (cells : Cells Channel) (n : ℤ)
    → Represents s us chs rooms
    → Holds cells n chs'
    → length cells ≡ max_users
    → AreRooms s.heap chs' rooms'
    → Represents
        (record s {
          srvrs = srvrs;
          recent = recent;
          sent = sent;
          stray_writes = strays;
          channels = cells;
          num_chnnls = n;
        })
        us
        chs'
        rooms'
Represents-rooms s us chs chs' rooms rooms' srvrs recent sent strays cells n v held size are =
    record {
      users = v.users;
      users_size = v.users_size;
      users_live = v.users_live;
      channels = held;
      channels_size = size;
      rooms_of = are;
      rising = v.rising;
      freed_below = v.freed_below;
    }
