-- ===== src/Server/Peers/Subscribe.antt =====
-- REQ_SERV_JOIN and REQ_SERV_LEAVE: the subscriptions of the adjacent servers.
use shell_chat_app_multi_ser.Base.{
  ℕ, suc, ◌+◌, ◌<◌, ◌≡◌, refl, ap, sym, ◌∙◌, false, List, [], ◌∷◌, ◌++◌, map, none, some,
  none-ne-some, Text, ok, pos, rounds, any, init, take-init, length, get_elem?, set, find_first,
  null_deref, arith, inl, inr,
}
use shell_chat_app_multi_ser.Duckchat.{Address, max_users, channel_max, max_channels}
use shell_chat_app_multi_ser.Channels.{User, Channel}
use shell_chat_app_multi_ser.Packets.{serv_join}
use shell_chat_app_multi_ser.Packets.Fits.{s2s_fill_join-ok}
use shell_chat_app_multi_ser.Adjacent.{Server, find_server_address}
use shell_chat_app_multi_ser.Adjacent.Subs.{
  IsSound, subs, is_named, has_channel_server-any, add_ch_srv-append,
}
use shell_chat_app_multi_ser.Adjacent.Removal.{remove_adj_channel_lem}
use shell_chat_app_multi_ser.Cells.{Cells}
use shell_chat_app_multi_ser.Directory.Laws.{find_channel-first, add_chnl-append}
use shell_chat_app_multi_ser.Server.State.{State, done, failed, told}
use shell_chat_app_multi_ser.Server.State.Loops.{sends, for_each-tell}
use shell_chat_app_multi_ser.Server.Chat.{Represents-rooms, Room, Represents, room_named}
use shell_chat_app_multi_ser.Server.Chat.Locate.{locate, AreRooms-append}
use shell_chat_app_multi_ser.Server.Peers.{
  server_at, subscribe, handle_serv_join, handle_serv_leave,
}

server_at-some :
    (srvrs : List Server) (k : ℕ) (srvr : Server)
    → get_elem? srvrs k ≡ some srvr
    → server_at srvrs k ≡ ok srvr
server_at-some srvrs k srvr e = rw (e, server_at) refl

-- A neighbour that is not subscribed yet, and has a place for the channel, is subscribed behind its
-- other channels.
subscribe-adds :
    (now : ℕ) (s : State) (addr : Address) (name : Text) (k : ℕ) (srvr : Server)
    → find_server_address s.srvrs addr 0 ≡ some k
    → get_elem? s.srvrs k ≡ some srvr
    → IsSound srvr
    → rounds srvr.num_chnnls < max_channels
    → any (is_named name) (subs srvr) ≡ false
    → length name < channel_max
    → (srvr' : Server) × (subscribe now addr name s
        ≡ done tt (record s { srvrs = set s.srvrs k srvr' }))
      × IsSound srvr'
      × (subs srvr' ≡ subs srvr ++ name ∷ [])
      × (srvr'.addr ≡ srvr.addr)
unfolding subscribe
subscribe-adds now s addr name k srvr at there sound place new fits =
    let (srvr', added, sound', more, same, timed) =
      add_ch_srv-append now srvr name sound place fits in
    (
      srvr',
      rw
          (
            at,
            server_at-some s.srvrs k srvr there,
            has_channel_server-any srvr name sound,
            new,
            added,
          )
          refl,
      sound',
      more,
      same,
    )

-- If the tables represent `us` and `rooms`, a join from a sound neighbour with a subscription left,
-- for a room that exists and that it is not subscribed to, adds the room behind its subscriptions,
-- if the name fits its field, and changes nothing else.
pub handle_serv_join-subscribes :
    (now : ℕ) (s : State) (us : List User) (chs : List Channel) (rooms : List Room) (addr : Address)
    (name : Text) (k : ℕ) (srvr : Server) (r : Room)
    → Represents s us chs rooms
    → find_server_address s.srvrs addr 0 ≡ some k
    → get_elem? s.srvrs k ≡ some srvr
    → IsSound srvr
    → rounds srvr.num_chnnls < max_channels
    → any (is_named name) (subs srvr) ≡ false
    → length name < channel_max
    → find_first (room_named name) rooms ≡ some r
    → (srvr' : Server) × (handle_serv_join now addr name s
        ≡ done tt (record s { srvrs = set s.srvrs k srvr' }))
      × IsSound srvr'
      × (subs srvr' ≡ subs srvr ++ name ∷ [])
      × (srvr'.addr ≡ srvr.addr)
unfolding handle_serv_join
handle_serv_join-subscribes now s us chs rooms addr name k srvr r v at there sound place new fits
      room =
    let (srvr', done_so, sound', more, same) =
      subscribe-adds now s addr name k srvr at there sound place new fits in
    elim (locate s.heap name chs rooms 0 v.rooms_of) [
      | inl a ↦ absurd (none-ne-some r (sym a.no_room ∙ room))
      | inr l ↦ (
        srvr',
        rw (done_so, find_channel-first s.channels s.num_chnnls chs name v.channels, l.hit) refl,
        sound',
        more,
        same,
      )
    ]

-- If the tables represent `us` and `rooms`, a join from a sound neighbour with a subscription left,
-- for a room that does not exist and that it is not subscribed to, subscribes the neighbour, whose address stays, opens
-- the room without members, behind the others, if fewer than 32 channels exist and the name fits
-- its field, and is sent to every adjacent server.
pub handle_serv_join-opens :
    (now : ℕ) (s : State) (us : List User) (chs : List Channel) (rooms : List Room) (addr : Address)
    (name : Text) (k : ℕ) (srvr : Server)
    → Represents s us chs rooms
    → find_server_address s.srvrs addr 0 ≡ some k
    → get_elem? s.srvrs k ≡ some srvr
    → IsSound srvr
    → rounds srvr.num_chnnls < max_channels
    → any (is_named name) (subs srvr) ≡ false
    → length name < channel_max
    → find_first (room_named name) rooms ≡ none
    → length chs < max_users
    → (srvr' : Server) × (c : Channel) × (channels : Cells Channel) × (let srvrs =
          set s.srvrs k srvr' in
        let s' = record (sends s (map (told (serv_join name)) srvrs)) {
          srvrs = srvrs;
          channels = channels;
          num_chnnls = pos (length (chs ++ c ∷ []));
        } in
        (handle_serv_join now addr name s ≡ done tt s')
        × IsSound srvr'
        × (subs srvr' ≡ subs srvr ++ name ∷ [])
        × (srvr'.addr ≡ srvr.addr)
        × Represents s' us
            (chs ++ c ∷ [])
            (rooms ++ record { name = name; members = []; time = now } ∷ []))
unfolding handle_serv_join
handle_serv_join-opens now s us chs rooms addr name k srvr v at there sound place new fits room
      table =
    let (srvr', done_so, sound', more, same) =
      subscribe-adds now s addr name k srvr at there sound place new fits in
    elim (locate s.heap name chs rooms 0 v.rooms_of) [
      | inr l ↦ absurd (none-ne-some l.room (sym room ∙ l.first))
      | inl a ↦
          let (c, cells, num, made, h, size, m, n, t) =
            add_chnl-append s.heap now s.channels s.num_chnnls chs name v.channels
              (omega (arith, v.channels_size)) fits in
          let srvrs = set s.srvrs k srvr' in
          (
            srvr',
            c,
            cells,
            (
              rw
                  (
                    done_so,
                    find_channel-first s.channels s.num_chnnls chs name v.channels,
                    a.miss,
                    made,
                    s2s_fill_join-ok name fits,
                    for_each-tell (serv_join name) srvrs
                        (record s { srvrs = srvrs; channels = cells; num_chnnls = num }),
                    h.1,
                  )
                  refl,
              sound',
              more,
              same,
              Represents-rooms s us chs _ rooms _ _ _ _ _ _ _ v (h.0, refl) (size ∙ v.channels_size)
                  (AreRooms-append s.heap chs rooms c
                    (record { name = name; members = []; time = now }) v.rooms_of
                    (record { joined = m; called = n; timed = t })),
            ),
          )
    ]

-- A leave from a sound neighbour with a subscription, for whichever channel, only lowers the count of
-- its subscriptions by one, which drops the last of them, while its address, its table of channels and
-- its timers stay; there are two writes past the end of an array, and nothing else changes.
pub handle_serv_leave_drops_last :
    (s : State) (addr : Address) (name : Text) (k n : ℕ) (srvr : Server)
    → find_server_address s.srvrs addr 0 ≡ some k
    → get_elem? s.srvrs k ≡ some srvr
    → IsSound srvr
    → srvr.num_chnnls ≡ pos (suc n)
    → (handle_serv_leave addr name s
        ≡ done tt (record s {
          srvrs = set s.srvrs k (record srvr { num_chnnls = pos n });
          stray_writes = s.stray_writes + 2;
        }))
      × (subs (record srvr { num_chnnls = pos n }) ≡ init (subs srvr))
unfolding handle_serv_leave
handle_serv_leave_drops_last s addr name k n srvr at there sound some_sub = (
  rw (at, server_at-some s.srvrs k srvr there, remove_adj_channel_lem srvr name sound, some_sub)
      refl,
  rw some_sub
      (take-init srvr.sub_channels n (omega (arith, sound.room, sound.names, ap rounds some_sub))),
)

-- A join or a leave between servers that comes from an address which is no neighbour's reads
-- through a null pointer, before anything changes.
pub serv_requests_from_stranger :
    (now : ℕ) (s : State) (addr : Address) (name : Text)
    → find_server_address s.srvrs addr 0 ≡ none
    → (handle_serv_join now addr name s ≡ failed null_deref s)
      × (handle_serv_leave addr name s ≡ failed null_deref s)
unfolding handle_serv_join handle_serv_leave
serv_requests_from_stranger now s addr name none_there =
    (rw (none_there, subscribe) refl, rw none_there refl)
