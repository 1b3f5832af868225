-- ===== src/Tests/Setup.antt =====
-- A server with two neighbours, two users and two rooms, for the tests and examples.
use shell_chat_app_multi_ser.Base.{
  ℕ, zero, suc, ◌≤◌, ◌<◌, refl, List, [], ◌∷◌, Text, str_eq, codes, none, some, pos, replicate,
  arith,
}
use shell_chat_app_multi_ser.Duckchat.{Address, common, max_channels}
use shell_chat_app_multi_ser.Cells.{uninit, full}
use shell_chat_app_multi_ser.Channels.{User, Heap, Channel}
use shell_chat_app_multi_ser.Channels.Members.{Members}
use shell_chat_app_multi_ser.Adjacent.{Server}
use shell_chat_app_multi_ser.Adjacent.Subs.{IsSound}
use shell_chat_app_multi_ser.Adjacent.Expiry.{TimedAt}
use shell_chat_app_multi_ser.Recent.{no_ids}
use shell_chat_app_multi_ser.Server.State.{State}
use shell_chat_app_multi_ser.Server.Chat.{Room, Represents}

abbrev pub host : ℕ → Address
host port = record { sin_addr = 127; sin_port = port }

abbrev pub ann : User
ann = record { id = 0; username = codes "ann"; address = host 5001; addresslen = 16 }

abbrev pub bob : User
bob = record { id = 1; username = codes "bob"; address = host 5002; addresslen = 16 }

abbrev pub ruby : Text
ruby = codes "Ruby"

abbrev pub absent_name : Text
absent_name = codes "Perl"

abbrev pub common_channel : Channel
common_channel = record {
  chnl_name = common;
  connected_users = full ann ∷ full bob ∷ replicate 30 uninit;
  num_users = pos 2;
  tm = 100;
}

abbrev pub ruby_channel : Channel
ruby_channel = record {
  chnl_name = ruby;
  connected_users = full ann ∷ replicate 31 uninit;
  num_users = pos 1;
  tm = 100;
}

abbrev pub left : Server
left = record {
  addr = host 4002;
  sub_channels = common ∷ ruby ∷ replicate 62 [];
  timers = none ∷ some 100 ∷ replicate 62 none;
  num_chnnls = pos 2;
}

abbrev pub right : Server
right = record {
  addr = host 4003;
  sub_channels = common ∷ replicate 63 [];
  timers = replicate max_channels none;
  num_chnnls = pos 1;
}

abbrev pub heap : Heap
heap = record { next = 2; freed = [] }

abbrev pub talking : State
talking = record {
  srvrs = left ∷ right ∷ [];
  recent = no_ids;
  channels = full common_channel ∷ full ruby_channel ∷ replicate 30 uninit;
  num_chnnls = pos 2;
  all_users = full ann ∷ full bob ∷ replicate 30 uninit;
  num_users = pos 2;
  heap = heap;
  sent = [];
  stray_writes = 0;
}

abbrev pub users : List User
users = ann ∷ bob ∷ []

abbrev pub open_channels : List Channel
open_channels = common_channel ∷ ruby_channel ∷ []

abbrev pub common_room : Room
common_room = record { name = common; members = ann ∷ bob ∷ []; time = 100 }

abbrev pub ruby_room : Room
ruby_room = record { name = ruby; members = ann ∷ []; time = 100 }

abbrev pub rooms : List Room
rooms = common_room ∷ ruby_room ∷ []

pub common-Members : Members heap common_channel (ann ∷ bob ∷ [])
common-Members = record {
  held = ((refl, (refl, tt)), refl);
  live = (refl, (refl, tt));
  size = refl;
}

pub talking-Represents : Represents talking users open_channels rooms
talking-Represents = record {
  users = ((refl, (refl, tt)), refl);
  users_size = refl;
  users_live = (refl, (refl, tt));
  channels = ((refl, (refl, tt)), refl);
  channels_size = refl;
  rooms_of = (
    record { joined = common-Members; called = refl; timed = refl },
    (
      record {
        joined = record { held = ((refl, tt), refl); live = (refl, tt); size = refl };
        called = refl;
        timed = refl;
      },
      tt,
    ),
  );
  rising = omega arith;
  freed_below = tt;
}

pub left-IsSound : IsSound left
left-IsSound = record { count = refl; room = omega arith; names = refl; slots = refl }

pub right-IsSound : IsSound right
right-IsSound = record { count = refl; room = omega arith; names = refl; slots = refl }

pub beyond : (j : ℕ) → suc (suc j) < 2 → ⊥
beyond j high = omega arith

unfoldable pub left-TimedAt : (j : ℕ) → 1 ≤ j → j < 2 → TimedAt left j
unfolding str_eq
left-TimedAt zero low high = elim low [ ]
left-TimedAt (suc zero) low high = record {
  name = ruby;
  position = 1;
  time = 100;
  named = refl;
  first = refl;
  set_at = refl;
}
left-TimedAt (suc (suc j)) low high = elim (beyond j high) [ ]
