-- ===== src/Server/Peers/Forward.antt =====
-- REQ_SERV_SAY: the handing on of a say.
use shell_chat_app_multi_ser.Base.{
  ℕ, ◌<◌, ◌≡◌, refl, ap, sym, ◌∙◌, Bool, false, not, ◌&&◌, List, [], ◌∷◌, ◌++◌, map, some, some-eq,
  none-ne-some, Text, ok, out_of_bounds, pos, rounds, All, any-append, ◌==◌, keep, length,
  find_first, arith, leb, if◌then◌else◌, inl, inr, append_assoc,
}
use shell_chat_app_multi_ser.Duckchat.{Address, channel_max, username_max, say_max}
use shell_chat_app_multi_ser.Cells.{full}
use shell_chat_app_multi_ser.Channels.{User, Channel}
use shell_chat_app_multi_ser.Channels.Members.{IsLive, Members, load-live}
use shell_chat_app_multi_ser.Packets.{Request, text_say, serv_say}
use shell_chat_app_multi_ser.Packets.Fits.{fill_text_say-ok}
use shell_chat_app_multi_ser.Adjacent.{Server, addr_cmp}
use shell_chat_app_multi_ser.Adjacent.Subs.{
  IsSound, subs, index_of-any, find_channel_server-index, subscribers,
}
use shell_chat_app_multi_ser.Recent.{record_id, max_ids}
use shell_chat_app_multi_ser.Recent.Seen.{
  Remembers, among, has_id-among, has_id_past_end, record_id-append,
}
use shell_chat_app_multi_ser.Directory.Laws.{find_channel-first}
use shell_chat_app_multi_ser.Server.State.{
  State, Datagram, done, failed, told, to_client, to_server,
}
use shell_chat_app_multi_ser.Server.State.Loops.{
  sends, Sends, for_each-sends, for_cells-sends, gather-map, gather-keep, sends-send, sends-send_if,
}
use shell_chat_app_multi_ser.Server.Chat.{Room, Represents, room_named}
use shell_chat_app_multi_ser.Server.Chat.Locate.{locate}
use shell_chat_app_multi_ser.Server.Say.Delivery.{is_subscribed, mail}
use shell_chat_app_multi_ser.Server.Peers.{deliver, pass_on, is_dead_end, handle_serv_say}
use shell_chat_app_multi_ser.Server.Peers.DeadEnds.{
  leave_to, handle_serv_say-duplicate, is_dead_end-empty, is_dead_end-members,
}

is_dead_end-alive :
    (c : Channel) (srvrs : List Server) (name : Text) (ms : List User)
    → All IsSound srvrs
    → c.num_users ≡ pos (length ms)
    → (ms ≡ [] → 1 < subscribers srvrs name)
    → is_dead_end c srvrs name ≡ ok false
is_dead_end-alive c srvrs name [] sound e many =
    let big : leb (subscribers srvrs name) 1 ≡ false = ground (arith, many refl) in
    is_dead_end-empty c srvrs name sound e ∙ ap ok big
is_dead_end-alive c srvrs name (m ∷ ms) sound e many =
    is_dead_end-members c srvrs name (length ms) e

deliver-Sends :
    (s : State) (name username text : Text) (us : List User)
    → IsLive s.heap us
    → All
        (Sends s
          (λ u. deliver (text_say name username text) (full u))
          (λ u. mail name username text u ∷ []))
        us
deliver-Sends s name username text [] l = tt
deliver-Sends s name username text (u ∷ us) l = (
  λ ds.
      rw (load-live s.heap u l.0)
        (sends-send s ds u.address (to_client (text_say name username text))),
  deliver-Sends s name username text us l.1,
)

-- A neighbour that a say is passed on to: it is subscribed, and is not where the say came from.
abbrev pub passes_to : Address → Text → Server → Bool
passes_to addr name srvr = is_subscribed name srvr && not (addr_cmp srvr.addr addr)

pass_on-Sends :
    (s : State) (addr : Address) (rq : Request) (name : Text) (srvrs : List Server)
    → All IsSound srvrs
    → All
        (Sends s (pass_on addr rq name) (λ v. if passes_to addr name v then told rq v ∷ [] else []))
        srvrs
unfolding pass_on
pass_on-Sends s addr rq name [] v = tt
pass_on-Sends s addr rq name (x ∷ srvrs) v = (
  λ ds.
      rw (find_channel_server-index x name v.0, index_of-any name 0 (subs x))
        (sends-send_if (passes_to addr name x) s ds x.addr (to_server rq)),
  pass_on-Sends s addr rq name srvrs v.1,
)

-- What handing on a say sends: the text to every member, then the say to the neighbours it passes to.
abbrev pub hand_on : Address → ℕ → Text → Text → Text → Room → List Server → List Datagram
hand_on addr id username name text r srvrs =
    map (mail name username text) r.members
    ++ map (told (serv_say id username name text)) (keep (passes_to addr name) srvrs)

-- Let the tables represent `us` and `rooms`, let every neighbour be sound and the recorded ids be
-- `ids`. A say from a neighbour, with an id that is not recorded, for a room that exists and has a
-- member, or else two adjacent servers subscribed, goes to every member and then, unchanged, to
-- every subscribed neighbour but the one it came from, if the texts fit their fields; its id is
-- recorded, and nothing else changes.
pub handle_serv_say-forwards :
    (s : State) (us : List User) (chs : List Channel) (rooms : List Room) (ids : List ℕ)
    (addr : Address) (id : ℕ) (username name text : Text) (r : Room)
    → Represents s us chs rooms
    → All IsSound s.srvrs
    → Remembers s.recent ids
    → among id ids ≡ false
    → find_first (room_named name) rooms ≡ some r
    → (r.members ≡ [] → 1 < subscribers s.srvrs name)
    → length name < channel_max
    → length username < username_max
    → length text < say_max
    → handle_serv_say addr id username name text s
      ≡ done tt (record (sends s (hand_on addr id username name text r s.srvrs)) {
        recent = record_id s.recent id;
      })
unfolding handle_serv_say
handle_serv_say-forwards s us chs rooms ids addr id username name text r v sound m new room alive hn
      hu ht =
    elim (locate s.heap name chs rooms 0 v.rooms_of) [
      | inl a ↦ absurd (none-ne-some r (sym a.no_room ∙ room))
      | inr l ↦
          let same : l.room.members ≡ r.members =
            ap (λ x. x.members) (some-eq l.room r (sym l.first ∙ room)) in
          let joined : Members s.heap l.chnl r.members = record {
            held = rw same at l.is_room.joined.held;
            live = rw same at l.is_room.joined.live;
            size = l.is_room.joined.size;
          } in
          let rq = serv_say id username name text in
          let t : State = record s { recent = record_id s.recent id } in
          let mails = map (mail name username text) r.members in
          let told_members =
            for_cells-sends t (deliver (text_say name username text))
              (λ x. mail name username text x ∷ []) l.chnl.connected_users r.members joined.held.0
              (deliver-Sends t name username text r.members joined.live) in
          let told_servers =
            for_each-sends (sends t mails) (pass_on addr rq name)
              (λ x. if passes_to addr name x then told rq x ∷ [] else []) s.srvrs
              (pass_on-Sends (sends t mails) addr rq name s.srvrs sound) in
          rw
            (
              has_id-among s.recent ids id m,
              new,
              find_channel-first s.channels s.num_chnnls chs name v.channels,
              l.hit,
              is_dead_end-alive l.chnl s.srvrs name r.members sound joined.held.1 alive,
              fill_text_say-ok name username text hn hu ht,
              ap rounds joined.held.1,
              told_members,
              gather-map (mail name username text) r.members,
              told_servers,
              gather-keep (told rq) (passes_to addr name) s.srvrs,
              append_assoc s.sent,
            )
            refl
    ]

-- Let the tables represent `us` and `rooms`, let every neighbour be sound and fewer than 1024 ids
-- be recorded. A say from a neighbour, with an id that is not recorded, for a room that exists and
-- has a member, or else two adjacent servers subscribed, succeeds if the texts fit their fields,
-- and the same id again right after it, from whichever address, is only answered by a leave.
pub handle_serv_say_once :
    (s : State) (us : List User) (chs : List Channel) (rooms : List Room) (ids : List ℕ)
    (addr again : Address) (id : ℕ) (username name text : Text) (r : Room)
    → Represents s us chs rooms
    → All IsSound s.srvrs
    → Remembers s.recent ids
    → length ids < max_ids
    → among id ids ≡ false
    → find_first (room_named name) rooms ≡ some r
    → (r.members ≡ [] → 1 < subscribers s.srvrs name)
    → length name < channel_max
    → length username < username_max
    → length text < say_max
    → (t : State) × (handle_serv_say addr id username name text s ≡ done tt t)
      × (handle_serv_say again id username name text t
          ≡ done tt (sends t (leave_to again name ∷ [])))
handle_serv_say_once s us chs rooms ids addr again id username name text r v sound m some_room new
      room alive hn hu ht =
    let t : State = record (sends s (hand_on addr id username name text r s.srvrs)) {
      recent = record_id s.recent id;
    } in
    (
      t,
      handle_serv_say-forwards s us chs rooms ids addr id username name text r v sound m new room
          alive hn hu ht,
      handle_serv_say-duplicate t (ids ++ id ∷ []) again id username name text
          (record_id-append s.recent ids id m some_room)
          (any-append (λ k. k == id) ids (id ∷ []) ∙ rw new (ground arith)) hn,
    )

-- If more ids were counted than the table has places, a say from a neighbour whose id is not in the
-- table reads past the table, before anything changes.
pub handle_serv_say_overrun :
    (s : State) (addr : Address) (id : ℕ) (username name text : Text)
    → length s.recent.recent_ids < s.recent.num_ids
    → among id s.recent.recent_ids ≡ false
    → handle_serv_say addr id username name text s ≡ failed out_of_bounds s
unfolding handle_serv_say
handle_serv_say_overrun s addr id username name text h new =
    rw (has_id_past_end s.recent.recent_ids s.recent.num_ids id h new) refl
