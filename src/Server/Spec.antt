-- ===== src/Server/Spec.antt =====
-- What a server promises its users: users and rooms as lists, what each request makes of them, and when
-- it is a request that the server is made for. The requests are those of duckchat.h from clients, and says
-- from other servers.
pub mod Serves
pub mod Refinement
pub mod Course
use shell_chat_app_multi_ser.Base.{
  ℕ, suc, ◌+◌, ◌≤◌, ◌<◌, ◌≡◌, ◌≢◌, Bool, true, false, Option, none, some, List, [], ◌∷◌, ◌++◌, map,
  length, any, All, erase_first, find_first, Text,
}
use shell_chat_app_multi_ser.Duckchat.{Address, username_max, channel_max, say_max, max_users}
use shell_chat_app_multi_ser.Channels.{User}
use shell_chat_app_multi_ser.Channels.Remove.{named}
use shell_chat_app_multi_ser.Packets.{Request, login, logout, join, leave, say, list, who, serv_say}
use shell_chat_app_multi_ser.Recent.{max_ids}
use shell_chat_app_multi_ser.Recent.Seen.{among}
use shell_chat_app_multi_ser.Directory.Laws.{at_address}
use shell_chat_app_multi_ser.Server.Chat.{Room, room_named, amend}
use shell_chat_app_multi_ser.Server.Users.{addr_len}
use shell_chat_app_multi_ser.Server.Users.Dropping.{after_logout}
use shell_chat_app_multi_ser.Server.Users.Logout.{Others}
use shell_chat_app_multi_ser.Server.Rooms.Join.{add_member, opened}
use shell_chat_app_multi_ser.Server.Rooms.Leave.{drop_member}

-- Who is logged in, the rooms, the number of the next user, and the ids of the says between servers that
-- were recorded.
pub record View : Type 0 where
  pub us : List User
  pub rooms : List Room
  pub next : ℕ
  pub ids : List ℕ

-- The rooms once a user has joined one of them.
abbrev pub joined : ℕ → Text → User → List Room → Option Room → List Room
joined now name u rooms none = rooms ++ opened name u now ∷ []
joined now name u rooms (some r) = amend name (add_member u) rooms

-- The rooms once a user has left one of them, given who remains in it.
abbrev pub left : Text → User → List Room → List User → List Room
left name u rooms [] = erase_first (room_named name) rooms
left name u rooms (w ∷ ws) = amend name (drop_member u.username) rooms

-- A request that may be made: its sender is logged in, or logs in, the texts fit their fields, the
-- tables have room, and the room that it is about is one that it can be about.
pub data Permitted (v : View) (from : Address) : Request → Type 0 where
  login_with :
      (name : Text) (r : Room) (rooms : List Room)
      → v.rooms ≡ r ∷ rooms
      → length name < username_max
      → length v.us < max_users
      → length r.members < max_users
      → any (named name) r.members ≡ false
      → Permitted v from (login name)
  join_room :
      (u : User) (name : Text) (r : Room)
      → find_first (at_address from) v.us ≡ some u
      → find_first (room_named name) v.rooms ≡ some r
      → length name < channel_max
      → length r.members < max_users
      → Permitted v from (join name)
  open_room :
      (u : User) (name : Text)
      → find_first (at_address from) v.us ≡ some u
      → find_first (room_named name) v.rooms ≡ none
      → length name < channel_max
      → length v.rooms < max_users
      → Permitted v from (join name)
  leave_room :
      (u : User) (name : Text) (r : Room)
      → find_first (at_address from) v.us ≡ some u
      → find_first (room_named name) v.rooms ≡ some r
      → any (named u.username) r.members ≡ true
      → length name < channel_max
      → Permitted v from (leave name)
  say_in :
      (u m : User) (name text : Text) (r : Room)
      → find_first (at_address from) v.us ≡ some u
      → find_first (room_named name) v.rooms ≡ some r
      → find_first (at_address from) r.members ≡ some m
      → length name < channel_max
      → length text < say_max
      → length m.username < username_max
      → length u.username < username_max
      → length v.ids < max_ids
      → Permitted v from (say name text)
  list_rooms : All (λ r. length r.name < channel_max) v.rooms → Permitted v from list
  who_is_in :
      (name : Text) (r : Room)
      → find_first (room_named name) v.rooms ≡ some r
      → length name < channel_max
      → 1 ≤ length v.us
      → length r.members ≤ length v.us
      → All (λ u. length u.username < 28) r.members
      → Permitted v from (who name)
  log_out :
      (u : User)
      → find_first (at_address from) v.us ≡ some u
      → All (λ r. r.members ≢ []) v.rooms
      → All (λ r. Others u r.members) (map (after_logout u.username) v.rooms)
      → Permitted v from logout
  hear_again :
      (id : ℕ) (username name text : Text)
      → among id v.ids ≡ true
      → length name < channel_max
      → Permitted v from (serv_say id username name text)
  hear :
      (id : ℕ) (username name text : Text) (r : Room) (u : User) (us : List User)
      → among id v.ids ≡ false
      → find_first (room_named name) v.rooms ≡ some r
      → r.members ≡ u ∷ us
      → length name < channel_max
      → length username < username_max
      → length text < say_max
      → length v.ids < max_ids
      → Permitted v from (serv_say id username name text)

-- What a permitted request makes of users and rooms.
abbrev pub result :
    (v : View) (from : Address) (now random : ℕ) (rq : Request) → Permitted v from rq → View
result v from now random _ (login_with name r rooms e1 e2 e3 e4 e5) = record v {
  us = v.us ++ record { id = v.next; username = name; address = from; addresslen = addr_len } ∷ [];
  next = suc v.next;
}
result v from now random _ (join_room u name r e1 e2 e3 e4) = record v {
  rooms = joined now name u v.rooms (some r);
}
result v from now random _ (open_room u name e1 e2 e3 e4) = record v {
  rooms = joined now name u v.rooms none;
}
result v from now random _ (leave_room u name r e1 e2 e3 e4) = record v {
  rooms = left name u v.rooms (erase_first (named u.username) r.members);
}
result v from now random _ (say_in u m name text r e1 e2 e3 e4 e5 e6 e7 e8) = record v {
  ids = v.ids ++ random ∷ [];
}
result v from now random _ (list_rooms e) = v
result v from now random _ (who_is_in name r e1 e2 e3 e4 e5) = v
result v from now random _ (log_out u e1 e2 e3) = record v {
  us = erase_first (at_address from) v.us;
  rooms = map (after_logout u.username) v.rooms;
}
result v from now random _ (hear_again id username name text e1 e2) = v
result v from now random _ (hear id username name text r u us e1 e2 e3 e4 e5 e6 e7) = record v {
  ids = v.ids ++ id ∷ [];
}
