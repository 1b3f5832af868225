-- ===== src/Network/Says.antt =====
-- A line that is typed at one client, through its server, to the terminals of a channel's members.
use shell_chat_app_multi_ser.Base.{
  ℕ, suc, ◌≤◌, ◌<◌, ◌≡◌, refl, ap, ◌∙◌, true, false, ◌==◌, some, List, [], ◌∷◌, ◌++◌, length, map,
  keep, Text, ok, All, find_first,
}
use shell_chat_app_multi_ser.Duckchat.{Address, username_max, channel_max, say_max}
use shell_chat_app_multi_ser.Channels.{User, Channel}
use shell_chat_app_multi_ser.Packets.{Request, say, serv_say}
use shell_chat_app_multi_ser.Adjacent.Subs.{IsSound}
use shell_chat_app_multi_ser.Directory.Laws.{at_address}
use shell_chat_app_multi_ser.Wire.{Bytes, encode}
use shell_chat_app_multi_ser.Wire.Fields.{Fits}
use shell_chat_app_multi_ser.Wire.Requests.{IsSendable, parse-socket_recv}
use shell_chat_app_multi_ser.Server.State.{State, done, continue, pure, told, Datagram}
use shell_chat_app_multi_ser.Server.Chat.{Room, Represents, room_named}
use shell_chat_app_multi_ser.Server.Say.Delivery.{mail, is_subscribed, handle_say-delivers}
use shell_chat_app_multi_ser.Server.Rooms.{resub}
use shell_chat_app_multi_ser.Server.Round.{dispatch}
use shell_chat_app_multi_ser.Client.{slash}
use shell_chat_app_multi_ser.Client.Loop.{Client, on_line}
use shell_chat_app_multi_ser.Client.Waiting.{Waits}
use shell_chat_app_multi_ser.Client.Commands.{on_line-says}
use shell_chat_app_multi_ser.Client.Screen.Shows.{shown_say, on_datagram-shows_say}
use shell_chat_app_multi_ser.Network.{receive_datagram, Displays}

-- The bytes of a request that fits come to the case of the server's switch for that request.
pub receive_datagram-dispatch :
    (size now random : ℕ) (from : Address) (rq : Request) (buffer : Bytes) (s : State)
    → IsSendable rq
    → 140 ≤ size
    → receive_datagram size now random from (encode rq) buffer s ≡ dispatch now random from rq s
unfolding receive_datagram
receive_datagram-dispatch size now random from rq buffer s h room =
    rw (parse-socket_recv size rq buffer h room) refl

-- Every mail is displayed by a client with a buffer of at least 132 bytes.
pub mail-Displays :
    (size : ℕ) (name username text : Text) (us : List User)
    → Fits channel_max name
    → Fits username_max username
    → Fits say_max text
    → 132 ≤ size
    → All
        (λ d. Displays size d.message (shown_say name username text))
        (map (mail name username text) us)
mail-Displays size name username text [] hn hu ht room = tt
mail-Displays size name username text (u ∷ us) hn hu ht room = (
  λ before. on_datagram-shows_say size before name username text hn hu ht room,
  mail-Displays size name username text us hn hu ht room,
)

pub dests-mail :
    (name username text : Text) (us : List User)
    → map (λ d. d.dest) (map (mail name username text) us) ≡ map (λ w. w.address) us
dests-mail name username text [] = refl
dests-mail name username text (u ∷ us) = ap (◌∷◌ u.address) (dests-mail name username text us)

-- Let a client wait with a cleared buffer of `n` bytes, and let its server's tables represent `us` and
-- `rooms`, with sound neighbours, the client's address that of the user `u` and of the member `m` of
-- the room that is the client's active channel. If a line is typed that is no command, is not empty and,
-- with its end, is shorter than `n`, and it, the channel and both names fit their fields, then the client sends one request and waits again, and the
-- server that receives its bytes into a buffer of at least 140 bytes ends the case without a fault,
-- with one datagram for every member, in order, behind all that it has sent, and then the say with
-- the random number and the name `u` to each neighbour that is subscribed, and nothing more; and each member's client, with a buffer of at least 132 bytes, shows the channel,
-- the name `m` and the line.
pub typed_line-Displays :
    (c : Client) (n : ℕ) (js : List Text) (x : ℕ) (line : Text) (size screen now random : ℕ)
    (from : Address) (buffer : Bytes) (s : State) (us : List User) (chs : List Channel)
    (rooms : List Room) (u m : User) (r : Room)
    → Waits c n js
    → (x == slash) ≡ false
    → suc (length (x ∷ line)) < n
    → Fits say_max (x ∷ line)
    → Fits channel_max c.active_channel
    → 140 ≤ size
    → 132 ≤ screen
    → Represents s us chs rooms
    → All IsSound s.srvrs
    → find_first (at_address from) us ≡ some u
    → find_first (room_named c.active_channel) rooms ≡ some r
    → find_first (at_address from) r.members ≡ some m
    → Fits username_max m.username
    → length u.username < username_max
    → (c' : Client) × (rq : Request) × (s' : State) × (mails : List Datagram) × (on_line true
          (x ∷ line)
          c
        ≡ ok c')
      × Waits c' n js
      × (c'.requests ≡ c.requests ++ rq ∷ [])
      × (receive_datagram size now random from (encode rq) buffer s ≡ done resub s')
      × (s'.sent
          ≡ s.sent
            ++ (mails
                ++ map
                    (told (serv_say random u.username c.active_channel (x ∷ line)))
                    (keep (is_subscribed c.active_channel) s.srvrs)))
      × (map (λ d. d.dest) mails ≡ map (λ w. w.address) r.members)
      × All
          (λ d. Displays screen d.message (shown_say c.active_channel m.username (x ∷ line)))
          mails
unfolding dispatch
typed_line-Displays c n js x line size screen now random from buffer s us chs rooms u m r waits
      slashless long text channel server_room client_room v sound who room member name_fits hu =
    let name = c.active_channel in
    let (c', typed, waits', asked, quiet, active) =
      on_line-says c n js x line waits slashless text.1 long text.0 channel.0 in
    let rq = say name (x ∷ line) in
    let served =
      handle_say-delivers random s us chs rooms from name (x ∷ line) u m r v sound who room member
        channel.0 text.0 name_fits.0 hu in
    (
      c',
      rq,
      _,
      map (mail name m.username (x ∷ line)) r.members,
      typed,
      waits',
      asked,
      receive_datagram-dispatch size now random from rq buffer s (channel, text) server_room
          ∙ ap (λ o. continue o (λ _. pure resub)) served,
      refl,
      dests-mail name m.username (x ∷ line) r.members,
      mail-Displays screen name m.username (x ∷ line) r.members channel name_fits text client_room,
    )
