-- ===== src/Server/Rooms/Who.antt =====
-- REQ_WHO: the names of the members, in a block that may be too small.
use shell_chat_app_multi_ser.Base.{
  ℕ, suc, ◌+◌, ◌*◌, ◌≤◌, ◌<◌, ◌≡◌, refl, ap, sym, ◌∙◌, List, [], ◌∷◌, ◌++◌, map, some, some-eq,
  none-ne-some, Text, ok, err, buffer_overflow, rounds, All, length, find_first, arith, inl, inr,
  strcpy-ok,
}
use shell_chat_app_multi_ser.Duckchat.{Address, channel_max}
use shell_chat_app_multi_ser.Cells.{Cells}
use shell_chat_app_multi_ser.Cells.Holds.{Begins}
use shell_chat_app_multi_ser.Channels.{User, Heap, Channel}
use shell_chat_app_multi_ser.Channels.Members.{IsLive, load-live}
use shell_chat_app_multi_ser.Packets.{text_who}
use shell_chat_app_multi_ser.Directory.{who_names, strcpy_at}
use shell_chat_app_multi_ser.Directory.Laws.{find_channel-first}
use shell_chat_app_multi_ser.Server.State.{State, done, failed, to_client}
use shell_chat_app_multi_ser.Server.State.Loops.{sends}
use shell_chat_app_multi_ser.Server.Chat.{Room, Represents, room_named}
use shell_chat_app_multi_ser.Server.Chat.Locate.{locate}
use shell_chat_app_multi_ser.Server.Rooms.{resub, handle_who, who_len}

pub strcpy_at-ok :
    (size offset : ℕ) (t : Text) → offset + length t + 1 ≤ size → strcpy_at size offset t ≡ ok t
strcpy_at-ok size offset t h = ground arith

strcpy_at-overflow :
    (size offset : ℕ) (t : Text)
    → size < offset + length t + 1
    → strcpy_at size offset t ≡ err buffer_overflow
strcpy_at-overflow size offset t h = ground arith

-- The usernames fit the answer of REQ_WHO, if there are no more members than users and each name
-- leaves four bytes of its field.
who_names-map :
    (heap : Heap) (n : ℕ) (cells : Cells User) (i : ℕ) (ms : List User)
    → Begins cells ms
    → IsLive heap ms
    → All (λ u. length u.username < 28) ms
    → i + length ms ≤ n
    → who_names heap (who_len n) cells i (length ms) ≡ ok (map (λ u. u.username) ms)
unfolding who_names
who_names-map heap n cells i [] b l fits h = refl
who_names-map heap n [] i (u ∷ ms) b l fits h = absurd b
who_names-map heap n (c ∷ cells) i (u ∷ ms) b l fits h =
    rw
      (
        b.0,
        load-live heap u l.0,
        strcpy_at-ok (who_len n) (40 + 32 * i) u.username (omega (arith, fits.0)),
        who_names-map heap n cells (suc i) ms b.1 l.1 fits.1 (omega arith),
      )
      refl

-- The last member's name overruns the answer, if every user is a member and that name has 28 bytes or
-- more: the block was allocated with the size of `struct request_who`, which is four bytes shorter.
who_names-overflow :
    (heap : Heap) (n : ℕ) (cells : Cells User) (i : ℕ) (ms : List User) (u : User)
    → Begins cells (ms ++ u ∷ [])
    → IsLive heap (ms ++ u ∷ [])
    → 28 ≤ length u.username
    → n ≤ i + length ms + 1
    → who_names heap (who_len n) cells i (length (ms ++ u ∷ [])) ≡ err buffer_overflow
unfolding who_names
who_names-overflow heap n [] i [] u b l long h = absurd b
who_names-overflow heap n (c ∷ cells) i [] u b l long h =
    rw
      (
        b.0,
        load-live heap u l.0,
        strcpy_at-overflow (who_len n) (40 + 32 * i) u.username (omega arith),
      )
      refl
who_names-overflow heap n [] i (m ∷ ms) u b l long h = absurd b
who_names-overflow heap n (c ∷ cells) i (m ∷ ms) u b l long h =
    rw
      (
        b.0,
        load-live heap m l.0,
        who_names-overflow heap n cells (suc i) ms u b.1 l.1 long (omega arith),
      )
      (ground arith)

-- If the tables represent `us` and `rooms`, REQ_WHO for a room that exists is answered with the
-- names of its members, in order, and their number, if the channel's name fits its field, the room
-- has no more members than the table of users, that table has a user, and no member's name has more
-- than 27 bytes. Nothing else changes.
pub handle_who-names :
    (s : State) (us : List User) (chs : List Channel) (rooms : List Room) (addr : Address)
    (name : Text) (r : Room)
    → Represents s us chs rooms
    → find_first (room_named name) rooms ≡ some r
    → length name < channel_max
    → 1 ≤ length us
    → length r.members ≤ length us
    → All (λ u. length u.username < 28) r.members
    → handle_who addr name s
      ≡ done resub (
          sends s (
            record {
              dest = addr;
              message = to_client (
                  text_who
                    (who_len (length us))
                    (length r.members)
                    name
                    (map (λ u. u.username) r.members));
            }
            ∷ []))
unfolding handle_who
handle_who-names s us chs rooms addr name r v room fits some_user few short =
    elim (locate s.heap name chs rooms 0 v.rooms_of) [
      | inl a ↦ absurd (none-ne-some r (sym a.no_room ∙ room))
      | inr l ↦
          let same : r ≡ l.room = some-eq r l.room (sym room ∙ l.first) in
          rw
            (
              strcpy-ok channel_max name fits,
              ap rounds v.users.1,
              strcpy_at-ok (who_len (length us)) 8 name (omega arith),
              find_channel-first s.channels s.num_chnnls chs name v.channels,
              l.hit,
              l.is_room.joined.held.1,
              ap rounds v.users.1,
              who_names-map s.heap (length us) l.chnl.connected_users 0 l.room.members
                  l.is_room.joined.held.0 l.is_room.joined.live (rw same at short)
                  (omega (arith, ap (λ x. length x.members) same)),
              same,
            )
            refl
    ]

-- If the tables represent `us` and `rooms`, the room has at least as many members as the table of
-- users, which has one, the channel's name fits its field, and the last member's name has 28 bytes
-- or more, the answer to REQ_WHO overruns the block that was allocated for it, and nothing is sent.
pub handle_who_overflow :
    (s : State) (us : List User) (chs : List Channel) (rooms : List Room) (addr : Address)
    (name : Text) (r : Room) (ms : List User) (u : User)
    → Represents s us chs rooms
    → find_first (room_named name) rooms ≡ some r
    → length name < channel_max
    → 1 ≤ length us
    → r.members ≡ ms ++ u ∷ []
    → length us ≤ length ms + 1
    → 28 ≤ length u.username
    → handle_who addr name s ≡ failed buffer_overflow s
unfolding handle_who
handle_who_overflow s us chs rooms addr name r ms u v room fits some_user last all long =
    elim (locate s.heap name chs rooms 0 v.rooms_of) [
      | inl a ↦ absurd (none-ne-some r (sym a.no_room ∙ room))
      | inr l ↦
          let same : l.room.members ≡ ms ++ u ∷ [] =
            ap (λ x. x.members) (some-eq l.room r (sym l.first ∙ room)) ∙ last in
          let held : Begins l.chnl.connected_users (ms ++ u ∷ []) =
            rw same at l.is_room.joined.held.0 in
          let live : IsLive s.heap (ms ++ u ∷ []) = rw same at l.is_room.joined.live in
          rw
            (
              strcpy-ok channel_max name fits,
              ap rounds v.users.1,
              strcpy_at-ok (who_len (length us)) 8 name (omega arith),
              find_channel-first s.channels s.num_chnnls chs name v.channels,
              l.hit,
              l.is_room.joined.held.1,
              same,
              ap rounds v.users.1,
              who_names-overflow s.heap (length us) l.chnl.connected_users 0 ms u held live long
                  (omega arith),
            )
            refl
    ]
