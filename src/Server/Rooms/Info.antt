-- ===== src/Server/Rooms/Info.antt =====
-- REQ_LIST, and what a client is told of a channel that does not exist.
use shell_chat_app_multi_ser.Base.{
  ◌≤◌, ◌<◌, ◌≡◌, refl, ap, sym, ◌∙◌, List, [], ◌∷◌, ◌++◌, map, none, none-ne-some, Text, ok, rounds,
  All, length, find_first, arith, inl, inr, strcpy-ok,
}
use shell_chat_app_multi_ser.Duckchat.{Address, channel_max}
use shell_chat_app_multi_ser.Cells.{Cells}
use shell_chat_app_multi_ser.Cells.Holds.{Begins}
use shell_chat_app_multi_ser.Channels.{User, Heap, Channel}
use shell_chat_app_multi_ser.Packets.{text_error, text_list, cannot_find, channel_quote, not_exist}
use shell_chat_app_multi_ser.Packets.Fits.{channel_errors_fit}
use shell_chat_app_multi_ser.Directory.{list_names}
use shell_chat_app_multi_ser.Directory.Laws.{find_channel-first}
use shell_chat_app_multi_ser.Server.State.{State, done, to_client}
use shell_chat_app_multi_ser.Server.State.Loops.{sends}
use shell_chat_app_multi_ser.Server.Chat.{Room, AreRooms, Represents, room_named}
use shell_chat_app_multi_ser.Server.Chat.Locate.{locate, AreRooms-length}
use shell_chat_app_multi_ser.Server.Rooms.{
  resub, next_round, handle_leave, handle_list, handle_who, who_len,
}
use shell_chat_app_multi_ser.Server.Rooms.Who.{strcpy_at-ok}

list_names-map :
    (heap : Heap) (cells : Cells Channel) (chs : List Channel) (rooms : List Room)
    → Begins cells chs
    → AreRooms heap chs rooms
    → All (λ r. length r.name < channel_max) rooms
    → list_names cells (length chs) ≡ ok (map (λ r. r.name) rooms)
unfolding list_names
list_names-map heap cells [] [] b h fits = refl
list_names-map heap cells [] (r ∷ rooms) b h fits = absurd h
list_names-map heap cells (c ∷ chs) [] b h fits = absurd h
list_names-map heap [] (c ∷ chs) (r ∷ rooms) b h fits = absurd b
list_names-map heap (s ∷ cells) (c ∷ chs) (r ∷ rooms) b h fits =
    rw
      (
        b.0,
        h.0.called,
        strcpy-ok channel_max r.name fits.0,
        list_names-map heap cells chs rooms b.1 h.1 fits.1,
      )
      refl

-- If the tables represent `us` and `rooms`, and every room's name fits its field, REQ_LIST is
-- answered with the names of all rooms, in order, and their number; nothing else changes.
pub handle_list-names :
    (s : State) (us : List User) (chs : List Channel) (rooms : List Room) (addr : Address)
    → Represents s us chs rooms
    → All (λ r. length r.name < channel_max) rooms
    → handle_list addr s
      ≡ done resub (
          sends s (
            record {
              dest = addr;
              message = to_client (text_list (length rooms) (map (λ r. r.name) rooms));
            }
            ∷ []))
unfolding handle_list
handle_list-names s us chs rooms addr v fits =
    rw
      (
        v.channels.1,
        list_names-map s.heap s.channels chs rooms v.channels.0 v.rooms_of fits,
        AreRooms-length s.heap chs rooms v.rooms_of,
      )
      refl

-- If the tables represent `us` and `rooms` and the table of users has a user, REQ_LEAVE and REQ_WHO
-- for a channel that does not exist, of a name that fits its field, are each answered with one
-- error text that names it; nothing else changes, and the round skips the renewals.
pub unknown_channel_reported :
    (s : State) (us : List User) (chs : List Channel) (rooms : List Room) (addr : Address)
    (name : Text)
    → Represents s us chs rooms
    → find_first (room_named name) rooms ≡ none
    → length name < channel_max
    → 1 ≤ length us
    → (handle_leave addr name s
        ≡ done next_round (
            sends s (
              record { dest = addr; message = to_client (text_error (cannot_find ++ name)) } ∷ [])))
      × (handle_who addr name s
          ≡ done next_round (
              sends s (
                record {
                  dest = addr;
                  message = to_client (text_error ((channel_quote ++ name) ++ not_exist));
                }
                ∷ [])))
unfolding handle_leave handle_who
unknown_channel_reported s us chs rooms addr name v room fits some_user =
    elim (locate s.heap name chs rooms 0 v.rooms_of) [
      | inr l ↦ absurd (none-ne-some l.room (sym room ∙ l.first))
      | inl a ↦
          let (e, e', size) = channel_errors_fit name fits in
          (
            rw (find_channel-first s.channels s.num_chnnls chs name v.channels, a.miss, e) refl,
            rw
                (
                  strcpy-ok channel_max name fits,
                  ap rounds v.users.1,
                  strcpy_at-ok (who_len (length us)) 8 name (omega arith),
                  find_channel-first s.channels s.num_chnnls chs name v.channels,
                  a.miss,
                  e',
                )
                refl,
          )
    ]
