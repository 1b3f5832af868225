-- ===== src/Network/Asks.antt =====
-- What a client that asks for the channels, or for the users of one, gets to see.
use shell_chat_app_multi_ser.Base.{
  ℕ, ◌*◌, ◌≤◌, ◌<◌, ◌≡◌, refl, ap, sym, subst, ◌∙◌, some, List, [], ◌∷◌, ◌++◌, length, length-map,
  map, replicate, codes, Text, ok, arith, All, find_first,
}
use shell_chat_app_multi_ser.Duckchat.{Address, channel_max}
use shell_chat_app_multi_ser.Cells.Holds.{Begins-length}
use shell_chat_app_multi_ser.Channels.{User, Channel}
use shell_chat_app_multi_ser.Packets.{list, who, text_list, text_who}
use shell_chat_app_multi_ser.Wire.{Bytes, encode, encode_reply}
use shell_chat_app_multi_ser.Wire.Fields.{Fits, IsText}
use shell_chat_app_multi_ser.Server.State.{State, done, Datagram, to_client}
use shell_chat_app_multi_ser.Server.Chat.{Room, Represents, room_named}
use shell_chat_app_multi_ser.Server.Chat.Locate.{AreRooms-length}
use shell_chat_app_multi_ser.Server.Rooms.{resub, who_len}
use shell_chat_app_multi_ser.Server.Rooms.Info.{handle_list-names}
use shell_chat_app_multi_ser.Server.Rooms.Who.{handle_who-names}
use shell_chat_app_multi_ser.Server.Round.{dispatch}
use shell_chat_app_multi_ser.Client.Screen.{on_datagram}
use shell_chat_app_multi_ser.Client.Screen.Lists.{lines, on_datagram-shows_list}
use shell_chat_app_multi_ser.Client.Screen.Users.{shown_who, on_datagram-shows_who}
use shell_chat_app_multi_ser.Network.{message_bytes, receive_datagram, Displays}
use shell_chat_app_multi_ser.Network.Says.{receive_datagram-dispatch}

All-of-map {κ} :
    {A B : Type 0} (P : B → Type κ) (f : A → B) (xs : List A)
    → All (λ x. P (f x)) xs
    → All P (map f xs)
All-of-map P f [] h = tt
All-of-map P f (x ∷ xs) h = (h.0, All-of-map P f xs h.1)

-- Let the server's tables represent `us` and `rooms`, and every room's name fit its field. A server that
-- gets the bytes of a request for the channels answers its sender alone; and a client that gets the
-- answer into a buffer of at least 1032 bytes shows the names of all rooms, in order, each on a line of
-- its own and followed by what its field held before in the block from `malloc`.
pub list_request-Displays :
    (size screen now random : ℕ) (from : Address) (buffer before : Bytes) (s : State)
    (us : List User) (chs : List Channel) (rooms : List Room)
    → 140 ≤ size
    → 1032 ≤ screen
    → Represents s us chs rooms
    → All (λ r. length r.name < channel_max) rooms
    → 32 * length rooms ≤ length before
    → (s' : State) × (d : Datagram) × (receive_datagram size now random from (encode list) buffer s
        ≡ done resub s')
      × (s'.sent ≡ s.sent ++ d ∷ [])
      × (d.dest ≡ from)
      × (on_datagram screen (message_bytes before d.message)
          ≡ ok (record {
            out =
                replicate 50 8
                ++ (((codes "Existing Channels:" ++ 0 ∷ [])
                      ++ lines before (map (λ r. r.name) rooms))
                    ++ codes "\n> ");
            errors = [];
          }))
unfolding dispatch
list_request-Displays size screen now random from buffer before s us chs rooms wide room v fits
      block =
    let names = map (λ r. r.name) rooms in
    let count : length names ≡ length rooms = length-map rooms (λ r. r.name) in
    let few : length rooms ≤ 32 = omega (
      arith,
      Begins-length s.channels chs v.channels.0,
      v.channels_size,
      AreRooms-length s.heap chs rooms v.rooms_of,
    ) in
    (
      _,
      _,
      receive_datagram-dispatch size now random from list buffer s tt wide
          ∙ handle_list-names s us chs rooms from v fits,
      refl,
      refl,
      ap (λ n. on_datagram screen (encode_reply before (text_list n names))) (sym count)
          ∙ on_datagram-shows_list screen before names
              (All-of-map (λ t. length t < 32) (λ r. r.name) rooms fits) (omega (arith, count))
              (omega (arith, count)) (omega (arith, count)),
    )

-- Let the server's tables represent `us` and `rooms`, with at least one user and no more members in the
-- room than users, and names of members of at most 27 bytes. A server that gets the bytes of a request
-- for the users of the room, whose name fits its field, answers its sender alone; and a client that gets
-- the answer into a buffer of at least 1064 bytes shows the channel and the names of all members, in
-- order, each on a line of its own, also if all users are members, for which the block is four bytes
-- too short.
pub who_request-Displays :
    (size screen now random : ℕ) (from : Address) (buffer : Bytes) (s : State) (us : List User)
    (chs : List Channel) (rooms : List Room) (name : Text) (r : Room)
    → 140 ≤ size
    → 1064 ≤ screen
    → Represents s us chs rooms
    → find_first (room_named name) rooms ≡ some r
    → Fits channel_max name
    → 1 ≤ length us
    → length r.members ≤ length us
    → All (λ u. length u.username < 28) r.members
    → All (λ u. IsText u.username) r.members
    → (s' : State) × (d : Datagram) × (receive_datagram size now random from
          (encode (who name))
          buffer
          s
        ≡ done resub s')
      × (s'.sent ≡ s.sent ++ d ∷ [])
      × (d.dest ≡ from)
      × Displays screen d.message (shown_who name (map (λ u. u.username) r.members))
unfolding dispatch
who_request-Displays size screen now random from buffer s us chs rooms name r wide room v there fits
      some_user few short texts =
    let names = map (λ u. u.username) r.members in
    let count : length names ≡ length r.members = length-map r.members (λ u. u.username) in
    let small : length us ≤ 32 =
      omega (arith, Begins-length s.all_users us v.users.0, v.users_size) in
    (
      _,
      record {
        dest = from;
        message = to_client (text_who (who_len (length us)) (length r.members) name names);
      },
      receive_datagram-dispatch size now random from (who name) buffer s fits wide
          ∙ handle_who-names s us chs rooms from name r v there fits.0 some_user few short,
      refl,
      refl,
      subst
          (λ n.
            Displays screen (to_client (text_who (who_len (length us)) n name names))
              (shown_who name names))
          count
          (λ before.
            on_datagram-shows_who screen (who_len (length us)) before name names fits
              (All-of-map (λ t. length t < 28) (λ u. u.username) r.members short)
              (All-of-map IsText (λ u. u.username) r.members texts) (omega arith)
              (omega (arith, count)) (omega (arith, count)) (omega arith) (omega (arith, count))),
    )
