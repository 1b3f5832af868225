-- ===== src/Network/Enters.antt =====
-- A client that starts, up to its place in the channel `Common` of its server.
use shell_chat_app_multi_ser.Base.{
  ℕ, suc, ◌+◌, ◌≤◌, ◌<◌, ◌≡◌, refl, ◌∙◌, true, false, none, some, List, [], ◌∷◌, ◌++◌, length, any,
  drop, Text, str_eq_refl, ok, arith, find_first,
}
use shell_chat_app_multi_ser.Duckchat.{Address, username_max, max_users, common}
use shell_chat_app_multi_ser.Channels.{User}
use shell_chat_app_multi_ser.Channels.SockAddr.{comp_sockaddr_refl}
use shell_chat_app_multi_ser.Channels.Remove.{named}
use shell_chat_app_multi_ser.Packets.{login, join}
use shell_chat_app_multi_ser.Directory.Laws.{at_address}
use shell_chat_app_multi_ser.Wire.{Bytes, int_bytes, field, parse, socket_recv}
use shell_chat_app_multi_ser.Wire.Fields.{Fits, IsText, until_zero-field, length-field}
use shell_chat_app_multi_ser.Wire.Requests.{take_all}
use shell_chat_app_multi_ser.Server.State.{State, done}
use shell_chat_app_multi_ser.Server.Chat.{Room, room_named, amend}
use shell_chat_app_multi_ser.Server.Users.{addr_len}
use shell_chat_app_multi_ser.Server.Rooms.{Next}
use shell_chat_app_multi_ser.Server.Rooms.Join.{add_member}
use shell_chat_app_multi_ser.Server.Round.{dispatch}
use shell_chat_app_multi_ser.Server.Spec.{View, login_with, join_room}
use shell_chat_app_multi_ser.Server.Spec.Serves.{Shows}
use shell_chat_app_multi_ser.Server.Spec.Refinement.{dispatch-Shows}
use shell_chat_app_multi_ser.Addresses.Ports.{decimal}
use shell_chat_app_multi_ser.Terminal.{Tty}
use shell_chat_app_multi_ser.Client.Start.{Surroundings, Connection, connected, start_main}
use shell_chat_app_multi_ser.Client.Start.Restores.{start_main-connects}
use shell_chat_app_multi_ser.Network.{receive_datagram}

-- A structure with one text, whatever stood in its field before, is read from the server's buffer.
module _ (size now random : ℕ) (from : Address) (buffer : Bytes) (s : State) (name before : Text)
    (text : IsText name) (short : length name < 32) (room : 32 ≤ length before)
    (wide : 140 ≤ size) where
  fits : length (field 32 name before) + 4 ≤ size
  fits = omega (arith, length-field 32 name before short room)

  login_received :
      receive_datagram size now random from (int_bytes 0 ++ field 32 name before) buffer s
      ≡ dispatch now random from (login name) s
  unfolding receive_datagram parse socket_recv
  login_received =
      let datagram = int_bytes 0 ++ field 32 name before in
      rw
        (
          take_all size datagram (omega (arith, fits)),
          until_zero-field 32 name before (drop (length datagram) buffer) text,
        )
        refl

  join_received :
      receive_datagram size now random from (int_bytes 2 ++ field 32 name before) buffer s
      ≡ dispatch now random from (join name) s
  unfolding receive_datagram parse socket_recv
  join_received =
      let datagram = int_bytes 2 ++ field 32 name before in
      rw
        (
          take_all size datagram (omega (arith, fits)),
          until_zero-field 32 name before (drop (length datagram) buffer) text,
        )
        refl

find_first-end :
    (from : Address) (us : List User) (u : User)
    → find_first (at_address from) us ≡ none
    → at_address from u ≡ true
    → find_first (at_address from) (us ++ u ∷ []) ≡ some u
find_first-end from [] u absent hit = rw hit refl
find_first-end from (x ∷ us) u absent hit = ground (arith, find_first-end from us u)

abbrev pub newcomer : Address → Text → View → User
newcomer from name v = record {
  id = v.next;
  username = name;
  address = from;
  addresslen = addr_len;
}

-- Let the server's state stand for the view `v`, whose first room is `Common`, with room for one more in
-- both tables, and nobody logged in at the client's address, or with its name in `Common`. Let the
-- client be called with a host shorter than its block of `bufsiz` bytes, a port below 65536 in decimal
-- and a name that fits its field, let the two structures' text fields have 32 bytes at least, and its
-- calls succeed. Then it sends two datagrams, and the server that gets them, one after the other, into
-- buffers of at least 140 bytes, ends both cases without a fault, with the new user behind the others,
-- logged in at that address under that name, and in `Common`; other rooms, and the neighbours, are as
-- they were.
pub started_client-Shows :
    (around : Surroundings) (bufsiz : ℕ) (program host : Text) (port : ℕ) (name : Text) (tty : Tty)
    (size now now' random random' : ℕ) (from : Address) (buffer buffer' : Bytes) (s : State)
    (v : View) (r : Room) (rooms : List Room)
    → around.first ≡ true
    → around.second ≡ true
    → around.get ≡ true
    → around.set ≡ true
    → length host < bufsiz
    → port < 65536
    → Fits username_max name
    → 32 ≤ length around.old_username
    → 32 ≤ length around.old_channel
    → 140 ≤ size
    → Shows s v
    → v.rooms ≡ r ∷ rooms
    → r.name ≡ common
    → length v.us < max_users
    → length r.members < max_users
    → any (named name) r.members ≡ false
    → find_first (at_address from) v.us ≡ none
    → (c : Connection) × (login_bytes join_bytes : Bytes) × (next next' : Next) × (s' s'' : State)
      × (start_main around bufsiz (program ∷ host ∷ decimal port ∷ name ∷ []) tty
          ≡ ok (connected c))
      × (c.datagrams ≡ login_bytes ∷ join_bytes ∷ [])
      × (receive_datagram size now random from login_bytes buffer s ≡ done next s')
      × (receive_datagram size now' random' from join_bytes buffer' s' ≡ done next' s'')
      × Shows s'' (record {
        us = v.us ++ newcomer from name v ∷ [];
        rooms = amend common (add_member (newcomer from name v)) v.rooms;
        next = suc v.next;
        ids = v.ids;
      })
      × (s''.srvrs ≡ s.srvrs)
started_client-Shows around bufsiz program host port name tty size now now' random random' from
      buffer buffer' s v r rooms first second got did short below fits_name long long' wide shows
      front is_common us_room member_room fresh_name stranger =
    let u = newcomer from name v in
    let (c, ran, _, _, _, sent, _, _) =
      start_main-connects around bufsiz program host port name [] tty first second got did short
        below fits_name.0 in
    let (next, s', served, shows', same) =
      dispatch-Shows now random s v from (login name) shows
        (login_with name r rooms front fits_name.0 us_room member_room fresh_name) in
    let w : View = record {
      us = v.us ++ u ∷ [];
      rooms = v.rooms;
      next = suc v.next;
      ids = v.ids;
    } in
    let there : find_first (room_named common) v.rooms ≡ some r =
      rw (front, is_common, str_eq_refl common) refl in
    let (next', s'', served', shows'', same') =
      dispatch-Shows now' random' s' w from (join common) shows' (
        join_room u common r (find_first-end from v.us u stranger (comp_sockaddr_refl from)) there
          (omega arith) member_room) in
    (
      c,
      _,
      _,
      next,
      next',
      s',
      s'',
      ran,
      sent,
      login_received size now random from buffer s name around.old_username fits_name.1 fits_name.0
            long wide
          ∙ served,
      join_received size now' random' from buffer' s' common around.old_channel refl (omega arith)
            long' wide
          ∙ served',
      shows'',
      same' ∙ same,
    )
