-- ===== src/Network/Passes.antt =====
-- A say from one server to another and to the terminals of the members there.
use shell_chat_app_multi_ser.Base.{
  ℕ, ◌≤◌, ◌<◌, ◌≡◌, refl, ap, sym, ◌∙◌, Bool, true, false, some, List, [], ◌∷◌, ◌++◌, append_assoc,
  length, map, keep, Text, arith, All, find_first,
}
use shell_chat_app_multi_ser.Duckchat.{Address, username_max, channel_max, say_max}
use shell_chat_app_multi_ser.Channels.{User, Channel}
use shell_chat_app_multi_ser.Packets.{Request, say, serv_say}
use shell_chat_app_multi_ser.Adjacent.{Server}
use shell_chat_app_multi_ser.Adjacent.Subs.{IsSound, subscribers}
use shell_chat_app_multi_ser.Recent.Seen.{Remembers, among}
use shell_chat_app_multi_ser.Directory.Laws.{at_address}
use shell_chat_app_multi_ser.Wire.{Bytes, encode}
use shell_chat_app_multi_ser.Wire.Fields.{Fits}
use shell_chat_app_multi_ser.Server.State.{State, done, continue, pure, told, Datagram}
use shell_chat_app_multi_ser.Server.Chat.{Room, Represents, room_named}
use shell_chat_app_multi_ser.Server.Say.Delivery.{mail, is_subscribed, handle_say-delivers}
use shell_chat_app_multi_ser.Server.Peers.Forward.{passes_to, handle_serv_say-forwards}
use shell_chat_app_multi_ser.Server.Rooms.{resub}
use shell_chat_app_multi_ser.Server.Round.{dispatch}
use shell_chat_app_multi_ser.Client.Screen.Shows.{shown_say}
use shell_chat_app_multi_ser.Network.{message_bytes, receive_datagram, Displays}
use shell_chat_app_multi_ser.Network.Says.{receive_datagram-dispatch, mail-Displays, dests-mail}

keep-there :
    (p : Server → Bool) (rq : Request) (vs ws : List Server) (v : Server)
    → p v ≡ true
    → map (told rq) (keep p (vs ++ v ∷ ws))
      ≡ map (told rq) (keep p vs) ++ told rq v ∷ map (told rq) (keep p ws)
keep-there p rq [] ws v h = rw h refl
keep-there p rq (x ∷ vs) ws v h = ground (arith, keep-there p rq vs ws v h)

-- A server that gets the bytes of a say of a client sends a say to its neighbour.
say_passed :
    (size now random : ℕ) (from : Address) (buffer : Bytes) (s : State) (us : List User)
    (chs : List Channel) (rooms : List Room) (name text : Text) (u m : User) (r : Room)
    (vs ws : List Server) (v : Server)
    → 140 ≤ size
    → Represents s us chs rooms
    → All IsSound s.srvrs
    → find_first (at_address from) us ≡ some u
    → find_first (room_named name) rooms ≡ some r
    → find_first (at_address from) r.members ≡ some m
    → Fits channel_max name
    → Fits say_max text
    → length m.username < username_max
    → length u.username < username_max
    → s.srvrs ≡ vs ++ v ∷ ws
    → is_subscribed name v ≡ true
    → (s' : State) × (front back : List Datagram) × (receive_datagram size now random from
          (encode (say name text))
          buffer
          s
        ≡ done resub s')
      × (s'.sent ≡ s.sent ++ (front ++ told (serv_say random u.username name text) v ∷ back))
unfolding dispatch
say_passed size now random from buffer s us chs rooms name text u m r vs ws v room tables sound who
      there member hn ht hm hu near subscribed =
    let served =
      handle_say-delivers random s us chs rooms from name text u m r tables sound who there member
        hn.0 ht.0 hm hu in
    let rq = serv_say random u.username name text in
    let mails = map (mail name m.username text) r.members in
    let before = map (told rq) (keep (is_subscribed name) vs) in
    let after = map (told rq) (keep (is_subscribed name) ws) in
    let out : map (told rq) (keep (is_subscribed name) s.srvrs) ≡ before ++ told rq v ∷ after =
      ap (λ l. map (told rq) (keep (is_subscribed name) l)) near
      ∙ keep-there (is_subscribed name) rq vs ws v subscribed in
    (
      _,
      mails ++ before,
      after,
      receive_datagram-dispatch size now random from (say name text) buffer s (hn, ht) room
          ∙ ap (λ o. continue o (λ _. pure resub)) served,
      ap (λ l. s.sent ++ (mails ++ l)) out
          ∙ ap (λ l. s.sent ++ l) (sym (append_assoc mails before (told rq v ∷ after))),
    )

-- Let the tables of two servers represent `us` and `rooms`, `us'` and `rooms'`, with sound neighbours,
-- and let the first have the second as a neighbour that is subscribed to a channel. If a user of the
-- first, who is a member there, says a text in that channel, the first server, which gets its bytes,
-- sends a datagram to the second. Let that get its bytes, its id, the random number of the first, not
-- be recorded there, and the room there have a member, or else two neighbours subscribed. Then both
-- cases end without a fault; the second server sends one datagram to every member of its room, in
-- order, and then the say, unchanged, to each of its neighbours that is subscribed and is not where it
-- came from, and nothing more; and each such member's client shows the channel, the name
-- `u` and the text. Texts fit their fields, the number eight bytes; servers have buffers of 140 bytes
-- at least, and clients of 132.
pub remote_say-Displays :
    (size size' screen now now' random random' : ℕ) (from first : Address) (buffer buffer' : Bytes)
    (s : State) (us : List User) (chs : List Channel) (rooms : List Room) (t : State)
    (us' : List User) (chs' : List Channel) (rooms' : List Room) (ids : List ℕ) (name text : Text)
    (u m : User) (r r' : Room) (vs ws : List Server) (v : Server)
    → 140 ≤ size
    → 140 ≤ size'
    → 132 ≤ screen
    → Represents s us chs rooms
    → All IsSound s.srvrs
    → find_first (at_address from) us ≡ some u
    → find_first (room_named name) rooms ≡ some r
    → find_first (at_address from) r.members ≡ some m
    → Fits channel_max name
    → Fits say_max text
    → length m.username < username_max
    → Fits username_max u.username
    → random < 18446744073709551616
    → s.srvrs ≡ vs ++ v ∷ ws
    → is_subscribed name v ≡ true
    → Represents t us' chs' rooms'
    → All IsSound t.srvrs
    → Remembers t.recent ids
    → among random ids ≡ false
    → find_first (room_named name) rooms' ≡ some r'
    → (r'.members ≡ [] → 1 < subscribers t.srvrs name)
    → (s' t' : State) × (front back : List Datagram) × (d : Datagram) × (mails : List Datagram)
      × (receive_datagram size now random from (encode (say name text)) buffer s ≡ done resub s')
      × (s'.sent ≡ s.sent ++ (front ++ d ∷ back))
      × (d.dest ≡ v.addr)
      × (receive_datagram size' now' random' first (message_bytes [] d.message) buffer' t
          ≡ done resub t')
      × (t'.sent
          ≡ t.sent
            ++ (mails
                ++ map
                    (told (serv_say random u.username name text))
                    (keep (passes_to first name) t.srvrs)))
      × (map (λ e. e.dest) mails ≡ map (λ w. w.address) r'.members)
      × All (λ e. Displays screen e.message (shown_say name u.username text)) mails
unfolding dispatch
remote_say-Displays size size' screen now now' random random' from first buffer buffer' s us chs
      rooms t us' chs' rooms' ids name text u m r r' vs ws v room room' wide tables sound who there
      member hn ht hm hu small near subscribed tables' sound' seen new there' alive =
    let (s', front, back, sent, has) =
      say_passed size now random from buffer s us chs rooms name text u m r vs ws v room tables
        sound who there member hn ht hm hu.0 near subscribed in
    let rq = serv_say random u.username name text in
    let served =
      handle_serv_say-forwards t us' chs' rooms' ids first random u.username name text r' tables'
        sound' seen new there' alive hn.0 hu.0 ht.0 in
    (
      s',
      _,
      front,
      back,
      told rq v,
      map (mail name u.username text) r'.members,
      sent,
      has,
      refl,
      receive_datagram-dispatch size' now' random' first rq buffer' t (small, hu, hn, ht) room'
          ∙ ap (λ o. continue o (λ _. pure resub)) served,
      refl,
      dests-mail name u.username text r'.members,
      mail-Displays screen name u.username text r'.members hn hu ht wide,
    )
