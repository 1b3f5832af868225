-- ===== src/Server/Say/Failures.antt =====
-- REQ_SAY: a channel that does not exist, and a sender who is no member.
use shell_chat_app_multi_ser.Base.{
  ℕ, ◌<◌, ◌≡◌, refl, ap, sym, ◌∙◌, List, [], ◌∷◌, ◌++◌, none, some, some-eq, none-ne-some, Text,
  rounds, null_deref, length, find_first, inl, inr, strcpy-ok,
}
use shell_chat_app_multi_ser.Duckchat.{Address, channel_max, say_max}
use shell_chat_app_multi_ser.Cells.{Cells}
use shell_chat_app_multi_ser.Cells.Holds.{Begins}
use shell_chat_app_multi_ser.Channels.{User, Channel}
use shell_chat_app_multi_ser.Channels.Members.{Members, find_byaddr-first}
use shell_chat_app_multi_ser.Packets.{text_error, cannot_find}
use shell_chat_app_multi_ser.Packets.Fits.{fill_error-ok}
use shell_chat_app_multi_ser.Directory.Laws.{at_address, find_channel-first}
use shell_chat_app_multi_ser.Server.State.{State, failed, for_cells, to_client}
use shell_chat_app_multi_ser.Server.State.Loops.{sends}
use shell_chat_app_multi_ser.Server.Chat.{Room, Represents, room_named}
use shell_chat_app_multi_ser.Server.Chat.Locate.{locate}
use shell_chat_app_multi_ser.Server.Say.{say_to, handle_say}

-- If the tables represent `us` and `rooms`, a say to a channel that does not exist, of a name of
-- less than 36 bytes, is answered with the error text, after which the server reads through a null
-- pointer.
pub handle_say_unknown :
    (random : ℕ) (s : State) (us : List User) (chs : List Channel) (rooms : List Room)
    (addr : Address) (name text : Text)
    → Represents s us chs rooms
    → find_first (room_named name) rooms ≡ none
    → length name < 36
    → handle_say random addr name text s
      ≡ failed null_deref (
          sends s
            (record { dest = addr; message = to_client (text_error (cannot_find ++ name)) } ∷ []))
unfolding handle_say
handle_say_unknown random s us chs rooms addr name text v room fits =
    elim (locate s.heap name chs rooms 0 v.rooms_of) [
      | inr l ↦ absurd (none-ne-some l.room (sym room ∙ l.first))
      | inl a ↦
          rw
            (
              find_channel-first s.channels s.num_chnnls chs name v.channels,
              a.miss,
              fill_error-ok name fits,
            )
            refl
    ]

say_to_stranger :
    (s : State) (c : Channel) (m : User) (ms : List User) (cells : Cells User) (addr : Address)
    (name text : Text)
    → Members s.heap c (m ∷ ms)
    → Begins cells (m ∷ ms)
    → find_first (at_address addr) (m ∷ ms) ≡ none
    → length name < channel_max
    → length text < say_max
    → for_cells (say_to addr name text c) cells (length (m ∷ ms)) s ≡ failed null_deref s
unfolding for_cells say_to
say_to_stranger s c m ms [] addr name text v b who hn ht = absurd b
say_to_stranger s c m ms (x ∷ cells) addr name text v b who hn ht =
    rw
      (
        strcpy-ok channel_max name hn,
        strcpy-ok say_max text ht,
        find_byaddr-first s.heap c (m ∷ ms) addr v,
        who,
      )
      refl

-- If the tables represent `us` and `rooms`, a say to a room with members, from an address that is
-- none of theirs, with channel and text that fit their fields, reads through a null pointer before
-- anything is sent.
pub handle_say_stranger :
    (random : ℕ) (s : State) (us : List User) (chs : List Channel) (rooms : List Room)
    (addr : Address) (name text : Text) (r : Room) (m : User) (ms : List User)
    → Represents s us chs rooms
    → find_first (room_named name) rooms ≡ some r
    → r.members ≡ m ∷ ms
    → find_first (at_address addr) r.members ≡ none
    → length name < channel_max
    → length text < say_max
    → handle_say random addr name text s ≡ failed null_deref s
unfolding handle_say
handle_say_stranger random s us chs rooms addr name text r m ms v room some_member who hn ht =
    elim (locate s.heap name chs rooms 0 v.rooms_of) [
      | inl a ↦ absurd (none-ne-some r (sym a.no_room ∙ room))
      | inr l ↦
          let same : l.room.members ≡ m ∷ ms =
            ap (λ x. x.members) (some-eq l.room r (sym l.first ∙ room)) ∙ some_member in
          let joined : Members s.heap l.chnl (m ∷ ms) = record {
            held = rw same at l.is_room.joined.held;
            live = rw same at l.is_room.joined.live;
            size = l.is_room.joined.size;
          } in
          rw
            (
              find_channel-first s.channels s.num_chnnls chs name v.channels,
              l.hit,
              ap rounds joined.held.1,
              say_to_stranger s l.chnl m ms l.chnl.connected_users addr name text joined
                  joined.held.0 (rw some_member at who) hn ht,
            )
            refl
    ]
