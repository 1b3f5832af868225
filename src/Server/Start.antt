-- ===== src/Server/Start.antt =====
-- What the server's `main` sets up before its loop: the adjacent servers of its command line, channel 0,
-- and empty tables. The command line is checked and its addresses are read before (`create_sockaddr`).
use shell_chat_app_multi_ser.Base.{
  ℕ, ◌≡◌, refl, ap, sym, List, [], ◌∷◌, map, Result, ok, err, ◌>>=◌, pos, set, replicate, All,
  arith, length-replicate,
}
use shell_chat_app_multi_ser.Duckchat.{Address, common, max_users}
use shell_chat_app_multi_ser.Cells.{Slot, full, uninit}
use shell_chat_app_multi_ser.Channels.{Heap, User, Channel, create_channel}
use shell_chat_app_multi_ser.Channels.Members.{create_channel-empty}
use shell_chat_app_multi_ser.Adjacent.{Server, adjacent}
use shell_chat_app_multi_ser.Adjacent.Subs.{IsSound, adjacent-IsSound}
use shell_chat_app_multi_ser.Recent.{no_ids}
use shell_chat_app_multi_ser.Server.State.{State}
use shell_chat_app_multi_ser.Server.Chat.{Room, Represents}

unfoldable pub start : ℕ → List Address → Result State
start now addrs = do
  first ← create_channel now common
  ok (record {
    srvrs = map adjacent addrs;
    recent = no_ids;
    channels = set (replicate max_users uninit) 0 (full first);
    num_chnnls = pos 1;
    all_users = replicate max_users uninit;
    num_users = pos 0;
    heap = record { next = 0; freed = [] };
    sent = [];
    stray_writes = 0;
  })

abbrev pub common_room : ℕ → Room
common_room now = record { name = common; members = []; time = now }

adjacents-IsSound : (addrs : List Address) → All IsSound (map adjacent addrs)
adjacents-IsSound [] = tt
adjacents-IsSound (a ∷ addrs) = ((adjacent-IsSound a).0, adjacents-IsSound addrs)

-- The server starts without a fault, for whichever neighbours and time: nobody is logged in, there
-- is one room, `Common`, without members, every neighbour is sound, and nothing was sent.
pub start-Represents :
    (now : ℕ) (addrs : List Address)
    → (s : State) × (c : Channel) × (start now addrs ≡ ok s)
      × Represents s [] (c ∷ []) (common_room now ∷ [])
      × All IsSound s.srvrs
      × (s.sent ≡ [])
unfolding start
start-Represents now addrs =
    let heap : Heap = record { next = 0; freed = [] } in
    let (c, made, m, n, t) = create_channel-empty heap now common (omega arith) in
    (
      record {
        srvrs = map adjacent addrs;
        recent = no_ids;
        channels = set (replicate max_users uninit) 0 (full c);
        num_chnnls = pos 1;
        all_users = replicate max_users uninit;
        num_users = pos 0;
        heap = record { next = 0; freed = [] };
        sent = [];
        stray_writes = 0;
      },
      c,
      rw made refl,
      record {
        users = (tt, refl);
        users_size = length-replicate {A = Slot User} max_users uninit;
        users_live = tt;
        channels = ((refl, tt), refl);
        channels_size = refl;
        rooms_of = (record { joined = m; called = n; timed = t }, tt);
        rising = omega arith;
        freed_below = tt;
      },
      adjacents-IsSound addrs,
      refl,
    )

abbrev srvrs_of : Result State → List Server
srvrs_of (ok s) = s.srvrs
srvrs_of (err f) = []

pub start-adjacent :
    (now : ℕ) (addrs : List Address) (s : State)
    → start now addrs ≡ ok s
    → s.srvrs ≡ map adjacent addrs
unfolding start
start-adjacent now addrs s e =
    let (c, made, _, _, _) =
      create_channel-empty (record { next = 0; freed = [] }) now common (omega arith) in
    sym (ap srvrs_of (rw made at e))
