-- ===== src/Server/Say/Delivery.antt =====
-- A say that goes well: who is sent it.
use shell_chat_app_multi_ser.Base.{
  ℕ, ◌<◌, ◌≡◌, refl, ap, sym, ◌∙◌, Bool, List, [], ◌∷◌, ◌++◌, map, some, some-eq, none-ne-some,
  Text, rounds, All, any, keep, length, find_first, if◌then◌else◌, inl, inr, strcpy-ok,
  append_assoc,
}
use shell_chat_app_multi_ser.Duckchat.{Address, channel_max, username_max, say_max}
use shell_chat_app_multi_ser.Cells.{full}
use shell_chat_app_multi_ser.Channels.{User, Channel}
use shell_chat_app_multi_ser.Channels.Members.{IsLive, Members, load-live, find_byaddr-first}
use shell_chat_app_multi_ser.Packets.{Request, text_say, serv_say}
use shell_chat_app_multi_ser.Packets.Fits.{s2s_fill_say-ok}
use shell_chat_app_multi_ser.Adjacent.{Server}
use shell_chat_app_multi_ser.Adjacent.Subs.{
  IsSound, subs, is_named, index_of-any, find_channel_server-index,
}
use shell_chat_app_multi_ser.Recent.{record_id}
use shell_chat_app_multi_ser.Directory.Laws.{at_address, find_channel-first}
use shell_chat_app_multi_ser.Server.State.{State, Datagram, done, told, to_client, to_server}
use shell_chat_app_multi_ser.Server.State.Loops.{
  sends, Sends, for_each-sends, for_cells-sends, gather-map, gather-keep, sends-send, sends-send_if,
}
use shell_chat_app_multi_ser.Server.Chat.{Room, Represents, room_named}
use shell_chat_app_multi_ser.Server.Chat.Locate.{locate}
use shell_chat_app_multi_ser.Server.Rooms.Join.{find_user-some}
use shell_chat_app_multi_ser.Server.Say.{say_to, say_to_server, handle_say}

-- The adjacent server is subscribed to the channel.
abbrev pub is_subscribed : Text → Server → Bool
is_subscribed name srvr = any (is_named name) (subs srvr)

-- A text for a client.
abbrev pub mail : Text → Text → Text → User → Datagram
mail name username text u = record {
  dest = u.address;
  message = to_client (text_say name username text);
}

say_to-Sends :
    (s : State) (c : Channel) (members : List User) (addr : Address) (name text : Text) (m : User)
    → Members s.heap c members
    → find_first (at_address addr) members ≡ some m
    → length name < channel_max
    → length text < say_max
    → length m.username < username_max
    → (us : List User) → IsLive s.heap us
    → All
        (Sends s (λ u. say_to addr name text c (full u)) (λ u. mail name m.username text u ∷ []))
        us
unfolding say_to
say_to-Sends s c members addr name text m v who hn ht hu [] l = tt
say_to-Sends s c members addr name text m v who hn ht hu (u ∷ us) l = (
  λ ds.
      rw
        (
          strcpy-ok channel_max name hn,
          strcpy-ok say_max text ht,
          find_byaddr-first s.heap c members addr v,
          who,
          strcpy-ok username_max m.username hu,
          load-live s.heap u l.0,
        )
        (sends-send s ds u.address (to_client (text_say name m.username text))),
  say_to-Sends s c members addr name text m v who hn ht hu us l.1,
)

say_to_server-Sends :
    (s : State) (rq : Request) (name : Text) (srvrs : List Server)
    → All IsSound srvrs
    → All
        (Sends s (say_to_server rq name) (λ v. if is_subscribed name v then told rq v ∷ [] else []))
        srvrs
unfolding say_to_server
say_to_server-Sends s rq name [] v = tt
say_to_server-Sends s rq name (x ∷ srvrs) v = (
  λ ds.
      rw (find_channel_server-index x name v.0, index_of-any name 0 (subs x))
        (sends-send_if (is_subscribed name x) s ds x.addr (to_server rq)),
  say_to_server-Sends s rq name srvrs v.1,
)

-- What a say to a room sends: the text to every member, the sender included, then the S2S say with the
-- new id to every adjacent server that is subscribed.
abbrev pub says : ℕ → Text → Text → User → User → Room → List Server → List Datagram
says random name text m u r srvrs =
    map (mail name m.username text) r.members
    ++ map (told (serv_say random u.username name text)) (keep (is_subscribed name) srvrs)

-- Let the server's tables represent `us` and `rooms`, let every neighbour be sound, and let the
-- sender's address be that of the user `u` of the table and of the member `m` of the room. If
-- channel, text and both names fit their fields, a say sends the message to every member, then to
-- every subscribed neighbour, records the random id, and changes nothing else.
pub handle_say-delivers :
    (random : ℕ) (s : State) (us : List User) (chs : List Channel) (rooms : List Room)
    (addr : Address) (name text : Text) (u m : User) (r : Room)
    → Represents s us chs rooms
    → All IsSound s.srvrs
    → find_first (at_address addr) us ≡ some u
    → find_first (room_named name) rooms ≡ some r
    → find_first (at_address addr) r.members ≡ some m
    → length name < channel_max
    → length text < say_max
    → length m.username < username_max
    → length u.username < username_max
    → handle_say random addr name text s
      ≡ done tt (record (sends s (says random name text m u r s.srvrs)) {
        recent = record_id s.recent random;
      })
unfolding handle_say
handle_say-delivers random s us chs rooms addr name text u m r v sound who room member hn ht hm hu =
    elim (locate s.heap name chs rooms 0 v.rooms_of) [
      | inl a ↦ absurd (none-ne-some r (sym a.no_room ∙ room))
      | inr l ↦
          let same : l.room.members ≡ r.members =
            ap (λ x. x.members) (some-eq l.room r (sym l.first ∙ room)) in
          let joined : Members s.heap l.chnl r.members = record {
            held = rw same at l.is_room.joined.held;
            live = rw same at l.is_room.joined.live;
            size = l.is_room.joined.size;
          } in
          let mails = map (mail name m.username text) r.members in
          let rq = serv_say random u.username name text in
          let told_members =
            for_cells-sends s (say_to addr name text l.chnl) (λ x. mail name m.username text x ∷ [])
              l.chnl.connected_users r.members joined.held.0
              (say_to-Sends s l.chnl r.members addr name text m joined member hn ht hm r.members
                joined.live) in
          let t : State = record (sends s mails) { recent = record_id s.recent random } in
          let told_servers =
            for_each-sends t (say_to_server rq name)
              (λ x. if is_subscribed name x then told rq x ∷ [] else []) s.srvrs
              (say_to_server-Sends t rq name s.srvrs sound) in
          let (k, found, within) = find_user-some s us addr u v.users v.users_live who in
          rw
            (
              find_channel-first s.channels s.num_chnnls chs name v.channels,
              l.hit,
              ap rounds joined.held.1,
              told_members,
              gather-map (mail name m.username text) r.members,
              found,
              s2s_fill_say-ok name u.username text hn hu ht,
              told_servers,
              gather-keep (told rq) (is_subscribed name) s.srvrs,
              append_assoc s.sent,
            )
            refl
    ]
