-- ===== src/Server/Peers/DeadEnds.antt =====
-- REQ_SERV_SAY: a say that was seen before, and one that leads nowhere.
use shell_chat_app_multi_ser.Base.{
  ℕ, suc, ◌≤◌, ◌<◌, ◌≡◌, refl, ap, sym, ◌∙◌, true, false, List, [], ◌∷◌, some, some-eq,
  none-ne-some, Text, ok, pos, is_zero, All, length, find_first, arith, leb, inl, inr,
}
use shell_chat_app_multi_ser.Duckchat.{Address, channel_max}
use shell_chat_app_multi_ser.Channels.{User, Channel}
use shell_chat_app_multi_ser.Packets.{serv_leave}
use shell_chat_app_multi_ser.Packets.Fits.{s2s_fill_leave-ok}
use shell_chat_app_multi_ser.Adjacent.{Server}
use shell_chat_app_multi_ser.Adjacent.Subs.{IsSound, subscribers, has_channel_servers-count}
use shell_chat_app_multi_ser.Recent.{record_id}
use shell_chat_app_multi_ser.Recent.Seen.{Remembers, among, has_id-among}
use shell_chat_app_multi_ser.Directory.Laws.{find_channel-first}
use shell_chat_app_multi_ser.Server.State.{State, Datagram, done, to_server}
use shell_chat_app_multi_ser.Server.State.Loops.{sends}
use shell_chat_app_multi_ser.Server.Chat.{Room, Represents, room_named}
use shell_chat_app_multi_ser.Server.Chat.Locate.{locate}
use shell_chat_app_multi_ser.Server.Peers.{send_leave, is_dead_end, handle_serv_say}

-- The leave that goes back to where a say came from.
abbrev pub leave_to : Address → Text → Datagram
leave_to addr name = record { dest = addr; message = to_server (serv_leave name) }

send_leave-sends :
    (s : State) (addr : Address) (name : Text)
    → length name < channel_max
    → send_leave addr name s ≡ done tt (sends s (leave_to addr name ∷ []))
unfolding send_leave
send_leave-sends s addr name h = rw (s2s_fill_leave-ok name h) refl

-- A say whose id was seen is answered by a leave to its sender: it is shown to nobody, passed on to
-- nobody, and nothing is recorded.
pub handle_serv_say-duplicate :
    (s : State) (ids : List ℕ) (addr : Address) (id : ℕ) (username name text : Text)
    → Remembers s.recent ids
    → among id ids ≡ true
    → length name < channel_max
    → handle_serv_say addr id username name text s ≡ done tt (sends s (leave_to addr name ∷ []))
unfolding handle_serv_say
handle_serv_say-duplicate s ids addr id username name text m old h =
    rw (has_id-among s.recent ids id m, old, send_leave-sends s addr name h) refl

pub is_dead_end-empty :
    (c : Channel) (srvrs : List Server) (name : Text)
    → All IsSound srvrs
    → c.num_users ≡ pos 0
    → is_dead_end c srvrs name ≡ ok (leb (subscribers srvrs name) 1)
unfolding is_dead_end
is_dead_end-empty c srvrs name sound e =
    rw (ap is_zero e, has_channel_servers-count srvrs name sound) refl

pub is_dead_end-members :
    (c : Channel) (srvrs : List Server) (name : Text) (n : ℕ)
    → c.num_users ≡ pos (suc n)
    → is_dead_end c srvrs name ≡ ok false
unfolding is_dead_end
is_dead_end-members c srvrs name n e = rw (ap is_zero e) refl

-- Let the tables represent `us` and `rooms`, let every neighbour be sound and the recorded ids be
-- `ids`. A say from a neighbour, with an id that is not recorded, for a room without members whose
-- name fits its field, with at most one adjacent server subscribed, is answered by a leave to its
-- sender, and its id is recorded; nothing else changes.
pub handle_serv_say-dead_end :
    (s : State) (us : List User) (chs : List Channel) (rooms : List Room) (ids : List ℕ)
    (addr : Address) (id : ℕ) (username name text : Text) (r : Room)
    → Represents s us chs rooms
    → All IsSound s.srvrs
    → Remembers s.recent ids
    → among id ids ≡ false
    → find_first (room_named name) rooms ≡ some r
    → r.members ≡ []
    → subscribers s.srvrs name ≤ 1
    → length name < channel_max
    → handle_serv_say addr id username name text s
      ≡ done tt (record (sends s (leave_to addr name ∷ [])) { recent = record_id s.recent id })
unfolding handle_serv_say
handle_serv_say-dead_end s us chs rooms ids addr id username name text r v sound m new room empty
      few h =
    elim (locate s.heap name chs rooms 0 v.rooms_of) [
      | inl a ↦ absurd (none-ne-some r (sym a.no_room ∙ room))
      | inr l ↦
          let same : l.room.members ≡ [] =
            ap (λ x. x.members) (some-eq l.room r (sym l.first ∙ room)) ∙ empty in
          let none_left : l.chnl.num_users ≡ pos 0 =
            l.is_room.joined.held.1 ∙ ap (λ x. pos (length x)) same in
          let small : leb (subscribers s.srvrs name) 1 ≡ true = ground arith in
          rw
            (
              has_id-among s.recent ids id m,
              new,
              find_channel-first s.channels s.num_chnnls chs name v.channels,
              l.hit,
              is_dead_end-empty l.chnl s.srvrs name sound none_left,
              small,
              send_leave-sends (record s { recent = record_id s.recent id }) addr name h,
            )
            refl
    ]
