-- ===== src/Server/Rooms/Join.antt =====
-- REQ_JOIN: entering a room that exists, and opening one that does not.
use Prim.Native.Nat.add
use shell_chat_app_multi_ser.Base.{
  ℕ, ◌+◌, ◌<◌, ◌≡◌, refl, ap, sym, ◌∙◌, List, [], ◌∷◌, ◌++◌, map, none, some, Text, false, some-eq,
  none-ne-some, ok, pos, All-find_first, length, length-append, length-set, set, find_first, arith,
  inl, inr,
}
use shell_chat_app_multi_ser.Duckchat.{Address, max_users, channel_max}
use shell_chat_app_multi_ser.Cells.{Cells, full}
use shell_chat_app_multi_ser.Cells.Holds.{Holds, Begins-set_last}
use shell_chat_app_multi_ser.Cells.Search.{find_index-first}
use shell_chat_app_multi_ser.Channels.{User, Channel, is_freed}
use shell_chat_app_multi_ser.Channels.Members.{IsLive, add_user-append}
use shell_chat_app_multi_ser.Packets.{serv_join}
use shell_chat_app_multi_ser.Packets.Fits.{s2s_fill_join-ok}
use shell_chat_app_multi_ser.Directory.{find_user}
use shell_chat_app_multi_ser.Directory.Laws.{
  at_address, find_channel-first, find_user-first, add_chnl-append,
}
use shell_chat_app_multi_ser.Server.State.{State, done, told}
use shell_chat_app_multi_ser.Server.State.Loops.{sends, for_each-tell}
use shell_chat_app_multi_ser.Server.Chat.{
  Represents-rooms, Room, IsRoom, Represents, Represents-aside, amend, room_named,
}
use shell_chat_app_multi_ser.Server.Chat.Locate.{Located, locate, Begins-set_at, AreRooms-append}
use shell_chat_app_multi_ser.Server.Rooms.{resub, join_channel, handle_join}

-- The user comes behind the members.
abbrev pub add_member : User → Room → Room
add_member u room = record room { members = room.members ++ u ∷ [] }

-- A user that is logged in, as `find_user` finds it.
pub find_user-some :
    (s : State) (us : List User) (addr : Address) (u : User)
    → Holds s.all_users s.num_users us
    → IsLive s.heap us
    → find_first (at_address addr) us ≡ some u
    → (k : ℕ) × (find_user s.heap s.all_users s.num_users addr ≡ ok (some (0 + k, u)))
      × (k < length us)
find_user-some s us addr u h l e =
    let (k, found, at, within, hit) = find_index-first (at_address addr) 0 us u e in
    (k, find_user-first s.heap s.all_users s.num_users us addr h l ∙ ap ok found, within)

-- The room that `amend` changes, with a channel that stands for it.
pub Represents-change :
    (s : State) (us : List User) (chs : List Channel) (rooms : List Room) (name : Text)
    (l : Located s.heap name chs rooms 0) (chnl' : Channel) (f : Room → Room)
    → Represents s us chs rooms
    → IsRoom s.heap chnl' (f l.room)
    → Represents
        (record s { channels = set s.channels (0 + l.place) (full chnl') })
        us
        (set chs l.place chnl')
        (amend name f rooms)
Represents-change s us chs rooms name l chnl' f v new =
    Represents-rooms s us chs _ rooms _ _ _ _ _ _ _ v
      (
        rw add.zero (Begins-set_at s.channels chs l.place chnl' v.channels.0 l.within),
        v.channels.1 ∙ ap pos (sym (length-set chs l.place chnl')),
      )
      (length-set s.channels (0 + l.place) (full chnl') ∙ v.channels_size) (l.change chnl' f new)

-- If the tables represent `us` and `rooms`, a user of the table who joins a room that exists and
-- has fewer than 32 members becomes its last member; every adjacent server is sent the join, and
-- nothing else changes. The channel's name fits its field.
pub handle_join-enters :
    (now : ℕ) (s : State) (us : List User) (chs : List Channel) (rooms : List Room) (addr : Address)
    (name : Text) (u : User) (r : Room)
    → Represents s us chs rooms
    → find_first (at_address addr) us ≡ some u
    → find_first (room_named name) rooms ≡ some r
    → length name < channel_max
    → length r.members < max_users
    → (channels : Cells Channel) × (chs' : List Channel) × (let s' =
          record (sends s (map (told (serv_join name)) s.srvrs)) { channels = channels } in
        (handle_join now addr name s ≡ done resub s')
        × Represents s' us chs' (amend name (add_member u) rooms))
unfolding handle_join join_channel
handle_join-enters now s us chs rooms addr name u r v who room fits place =
    elim (locate s.heap name chs rooms 0 v.rooms_of) [
      | inl a ↦ absurd (none-ne-some r (sym a.no_room ∙ room))
      | inr l ↦
          let same : l.room ≡ r = some-eq l.room r (sym l.first ∙ room) in
          let (k, found, within) = find_user-some s us addr u v.users v.users_live who in
          let (chnl', added, m, n, t) =
            add_user-append s.heap l.chnl l.room.members u l.is_room.joined
              (All-find_first (λ w. is_freed s.heap w.id ≡ false) (at_address addr) us u
                v.users_live who)
              (rw same place) in
          (
            set s.channels (0 + l.place) (full chnl'),
            set chs l.place chnl',
            (
              rw
                  (
                    find_channel-first s.channels s.num_chnnls chs name v.channels,
                    l.hit,
                    s2s_fill_join-ok name fits,
                    for_each-tell (serv_join name) s.srvrs s,
                    found,
                    added,
                  )
                  refl,
              Represents-change (sends s (map (told (serv_join name)) s.srvrs)) us chs rooms name l
                  chnl' (add_member u)
                  (Represents-aside s us chs rooms s.srvrs s.recent
                    (s.sent ++ map (told (serv_join name)) s.srvrs) s.stray_writes v)
                  (record {
                    joined = m;
                    called = n ∙ l.is_room.called;
                    timed = t ∙ l.is_room.timed;
                  }),
            ),
          )
    ]

-- A new room with one member.
abbrev pub opened : Text → User → ℕ → Room
opened name u now = record { name = name; members = u ∷ []; time = now }

-- If the tables represent `us` and `rooms`, a user of the table who joins a room that does not
-- exist opens it, behind the others, with that user as its member and the present time, if fewer
-- than 32 channels exist and the name fits its field. Every adjacent server is sent the join, and
-- nothing else changes.
pub handle_join-opens :
    (now : ℕ) (s : State) (us : List User) (chs : List Channel) (rooms : List Room) (addr : Address)
    (name : Text) (u : User)
    → Represents s us chs rooms
    → find_first (at_address addr) us ≡ some u
    → find_first (room_named name) rooms ≡ none
    → length name < channel_max
    → length chs < max_users
    → (channels : Cells Channel) × (chs' : List Channel) × (let s' =
          record (sends s (map (told (serv_join name)) s.srvrs)) {
            channels = channels;
            num_chnnls = pos (length chs');
          } in
        (handle_join now addr name s ≡ done resub s')
        × Represents s' us chs' (rooms ++ opened name u now ∷ []))
unfolding handle_join join_channel
handle_join-opens now s us chs rooms addr name u v who room fits place =
    elim (locate s.heap name chs rooms 0 v.rooms_of) [
      | inr l ↦ absurd (none-ne-some l.room (sym room ∙ l.first))
      | inl a ↦
          let (k, found, within) = find_user-some s us addr u v.users v.users_live who in
          let (c, cells, num, made, h, size, m, n, t) =
            add_chnl-append s.heap now s.channels s.num_chnnls chs name v.channels
              (omega (arith, v.channels_size)) fits in
          let (c', added, m', n', t') =
            add_user-append s.heap c [] u m
              (All-find_first (λ w. is_freed s.heap w.id ≡ false) (at_address addr) us u
                v.users_live who)
              (omega arith) in
          (
            set cells (length chs) (full c'),
            chs ++ c' ∷ [],
            (
              rw
                  (
                    find_channel-first s.channels s.num_chnnls chs name v.channels,
                    a.miss,
                    s2s_fill_join-ok name fits,
                    for_each-tell (serv_join name) s.srvrs s,
                    made,
                    found,
                    added,
                    v.channels.1,
                  )
                  (rw (h.1, length-append chs (c ∷ []), length-append chs (c' ∷ [])) refl),
              Represents-rooms s us chs _ rooms _ _ _ _ _ _ _ v
                  (Begins-set_last cells chs c c' h.0, refl)
                  (length-set cells (length chs) (full c') ∙ size ∙ v.channels_size)
                  (AreRooms-append s.heap chs rooms c' (opened name u now) v.rooms_of
                    (record { joined = m'; called = n' ∙ n; timed = t' ∙ t })),
            ),
          )
    ]
