-- ===== src/Server/Rooms/Leave.antt =====
-- REQ_LEAVE: leaving a room, and the closing of a room.
use shell_chat_app_multi_ser.Base.{
  ◌+◌, ◌<◌, ◌≡◌, refl, ap, sym, ◌∙◌, true, not, List, [], ◌∷◌, ◌++◌, map, some, some-eq,
  none-ne-some, Text, str_eq-eq, pos, any, length, length-set, set, find_first, erase_first, ltb,
  inl, inr,
}
use shell_chat_app_multi_ser.Duckchat.{Address, max_users, channel_max}
use shell_chat_app_multi_ser.Cells.{Cells, full}
use shell_chat_app_multi_ser.Channels.{User, Channel}
use shell_chat_app_multi_ser.Channels.Remove.{named, remove_user-erase}
use shell_chat_app_multi_ser.Packets.{serv_leave}
use shell_chat_app_multi_ser.Packets.Fits.{s2s_fill_leave-ok}
use shell_chat_app_multi_ser.Adjacent.{stray_count}
use shell_chat_app_multi_ser.Directory.Laws.{
  called, at_address, find_channel-first, remove_chnl-erase,
}
use shell_chat_app_multi_ser.Server.State.{State, done, told}
use shell_chat_app_multi_ser.Server.State.Loops.{sends, for_each-tell}
use shell_chat_app_multi_ser.Server.Chat.{
  Represents-rooms, Room, IsRoom, Represents, Represents-aside, amend, room_named,
}
use shell_chat_app_multi_ser.Server.Chat.Locate.{
  locate, any-called, AreRooms-erase, any-amend, erase_first-amend, any-find_first,
}
use shell_chat_app_multi_ser.Server.Rooms.{resub, handle_leave, close_channel}
use shell_chat_app_multi_ser.Server.Rooms.Join.{find_user-some, Represents-change}

-- Without the first member of that name.
abbrev pub drop_member : Text → Room → Room
drop_member username room = record room { members = erase_first (named username) room.members }

-- If the tables represent `us` and `rooms`, and a user of the table leaves a room in which a member
-- has the user's name and others remain, the first such member is taken out of it; nothing is sent
-- and nothing else changes.
pub handle_leave-leaves :
    (s : State) (us : List User) (chs : List Channel) (rooms : List Room) (addr : Address)
    (name : Text) (u w : User) (r : Room) (ws : List User)
    → Represents s us chs rooms
    → find_first (at_address addr) us ≡ some u
    → find_first (room_named name) rooms ≡ some r
    → any (named u.username) r.members ≡ true
    → erase_first (named u.username) r.members ≡ w ∷ ws
    → (channels : Cells Channel) × (chs' : List Channel) × (let s' = record s {
      channels = channels;
    } in
        (handle_leave addr name s ≡ done resub s')
        × Represents s' us chs' (amend name (drop_member u.username) rooms))
unfolding handle_leave
handle_leave-leaves s us chs rooms addr name u w r ws v who room member others =
    elim (locate s.heap name chs rooms 0 v.rooms_of) [
      | inl a ↦ absurd (none-ne-some r (sym a.no_room ∙ room))
      | inr l ↦
          let same : l.room ≡ r = some-eq l.room r (sym l.first ∙ room) in
          let (k, found, within) = find_user-some s us addr u v.users v.users_live who in
          let (c', ret, removed, m, n, t) =
            remove_user-erase s.heap l.chnl l.room.members u.username l.is_room.joined
              (rw same member) in
          let count : c'.num_users ≡ pos (length (w ∷ ws)) =
            m.held.1
            ∙ ap (λ x. pos (length (erase_first (named u.username) x.members))) same
            ∙ ap (λ x. pos (length x)) others in
          (
            set s.channels (0 + l.place) (full c'),
            set chs l.place c',
            (
              rw
                  (
                    find_channel-first s.channels s.num_chnnls chs name v.channels,
                    l.hit,
                    found,
                    removed,
                    count,
                  )
                  refl,
              Represents-change s us chs rooms name l c' (drop_member u.username) v (record {
                joined = m;
                called = n ∙ l.is_room.called;
                timed = t ∙ l.is_room.timed;
              }),
            ),
          )
    ]

-- What `close_channel` does with a channel of the table: the leave goes to every adjacent server, and
-- the first channel of that name is taken out.
close_channel-closes :
    (s : State) (us : List User) (chs : List Channel) (rooms : List Room) (c : Channel)
    (name : Text)
    → Represents s us chs rooms
    → c.chnl_name ≡ name
    → any (called name) chs ≡ true
    → length name < channel_max
    → (channels : Cells Channel) × (chs' : List Channel) × (let s' =
          record (sends s (map (told (serv_leave name)) s.srvrs)) {
            channels = channels;
            num_chnnls = pos (length chs');
            stray_writes = s.stray_writes + stray_count (not (ltb (length chs) max_users));
          } in
        (close_channel c s ≡ done tt s')
        × Represents s' us chs' (erase_first (room_named name) rooms))
unfolding close_channel
close_channel-closes s us chs rooms c name v title there fits =
    let (x, e, h, size, stray) =
      remove_chnl-erase s.channels s.num_chnnls chs name v.channels there in
    (
      x.cells,
      erase_first (called name) chs,
      (
        rw
            (
              title,
              s2s_fill_leave-ok name fits,
              for_each-tell (serv_leave name) s.srvrs s,
              e,
              h.1,
              stray,
              v.channels_size,
            )
            refl,
        Represents-rooms s us chs _ rooms _ _ _ _ _ _ _ v (h.0, refl) (size ∙ v.channels_size)
            (AreRooms-erase s.heap name chs rooms v.rooms_of),
      ),
    )

-- If the tables represent `us` and `rooms`, and a user of the table leaves a room that has one
-- member, of the user's name, the room is closed, whichever it is, and every adjacent server is
-- sent the leave, if the channel's name fits its field. One stray write is counted exactly if the
-- table of channels was full.
pub handle_leave-closes :
    (s : State) (us : List User) (chs : List Channel) (rooms : List Room) (addr : Address)
    (name : Text) (u : User) (r : Room)
    → Represents s us chs rooms
    → find_first (at_address addr) us ≡ some u
    → find_first (room_named name) rooms ≡ some r
    → any (named u.username) r.members ≡ true
    → erase_first (named u.username) r.members ≡ []
    → length name < channel_max
    → (channels : Cells Channel) × (chs' : List Channel) × (let s' =
          record (sends s (map (told (serv_leave name)) s.srvrs)) {
            channels = channels;
            num_chnnls = pos (length chs');
            stray_writes = s.stray_writes + stray_count (not (ltb (length chs) max_users));
          } in
        (handle_leave addr name s ≡ done resub s')
        × Represents s' us chs' (erase_first (room_named name) rooms))
unfolding handle_leave
handle_leave-closes s us chs rooms addr name u r v who room member alone fits =
    elim (locate s.heap name chs rooms 0 v.rooms_of) [
      | inl a ↦ absurd (none-ne-some r (sym a.no_room ∙ room))
      | inr l ↦
          let same : l.room ≡ r = some-eq l.room r (sym l.first ∙ room) in
          let (k, found, within) = find_user-some s us addr u v.users v.users_live who in
          let (c', ret, removed, m, n, t) =
            remove_user-erase s.heap l.chnl l.room.members u.username l.is_room.joined
              (rw same member) in
          let count : c'.num_users ≡ pos 0 =
            m.held.1
            ∙ ap (λ x. pos (length (erase_first (named u.username) x.members))) same
            ∙ ap (λ x. pos (length x)) alone in
          let title : c'.chnl_name ≡ name =
            n ∙ l.is_room.called ∙ str_eq-eq l.room.name name l.is_named in
          let new : IsRoom s.heap c' (drop_member u.username l.room) = record {
            joined = m;
            called = n ∙ l.is_room.called;
            timed = t ∙ l.is_room.timed;
          } in
          let v' = Represents-change s us chs rooms name l c' (drop_member u.username) v new in
          let there : any (called name) (set chs l.place c') ≡ true =
            any-called s.heap name (set chs l.place c') (amend name (drop_member u.username) rooms)
              v'.rooms_of
            ∙ any-amend name (drop_member u.username) (λ x. refl) rooms
            ∙ any-find_first (room_named name) rooms r room in
          let (channels, chs', (closed, v'')) =
            close_channel-closes (record s { channels = set s.channels (0 + l.place) (full c') }) us
              (set chs l.place c') (amend name (drop_member u.username) rooms) c' name v' title
              there fits in
          (
            channels,
            chs',
            (
              rw
                  (
                    find_channel-first s.channels s.num_chnnls chs name v.channels,
                    l.hit,
                    found,
                    removed,
                    count,
                  )
                  (rw (closed, length-set chs l.place c') refl),
              rw (← erase_first-amend name (drop_member u.username) (λ x. refl) rooms) (
                  Represents-aside _ us chs' _ s.srvrs s.recent
                    (s.sent ++ map (told (serv_leave name)) s.srvrs)
                    (s.stray_writes + stray_count (not (ltb (length chs) max_users))) v''),
            ),
          )
    ]
