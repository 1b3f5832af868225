-- ===== src/Adjacent.antt =====
-- The `Server` of channels.h, an adjacent server with the channels it is subscribed to, and the
-- functions of helper_functions.c on it. `now` is what `time(NULL)` returns; `time_t` is a number of
-- seconds and its differences fit an `int`.
pub mod Subs
pub mod Removal
pub mod Timers
pub mod Expiry
use shell_chat_app_multi_ser.Base.{
  ℕ, zero, suc, ◌+◌, Bool, true, false, ◌&&◌, Option, none, some, List, [], ◌∷◌, map, Text, str_eq,
  Result, ok, err, ◌>>=◌, out_of_bounds, uninit_read, null_deref, out_of_fuel, exceeds, strcpy, ℤ,
  pos, negsuc, rounds, incr, sub_ℕ, is_nonneg, length, get_elem?, set, replicate, take, ltb, ◌==◌,
  if◌then◌else◌,
}
use shell_chat_app_multi_ser.Duckchat.{Address, channel_max, max_channels, common}
use shell_chat_app_multi_ser.Cells.{Cells, full, Removed, neat_remove}

-- A timer is unassigned (`malloc`) until `add_ch_srv` or a renewed join sets it.
pub record Server : Type 0 where
  pub addr : Address
  pub sub_channels : List Text
  pub timers : List (Option ℕ)
  pub num_chnnls : ℤ

-- How `main` sets up an adjacent server.
unfoldable pub adjacent : Address → Server
adjacent addr = record {
  addr = addr;
  sub_channels = set (replicate max_channels []) 0 common;
  timers = replicate max_channels none;
  num_chnnls = pos 1;
}

-- The index of the first channel of that name, -1 if there is none; `i` is the index of the head.
find_channel_loop : List Text → Text → ℕ → ℕ → Result ℤ
find_channel_loop subs channel i zero = ok (negsuc 0)
find_channel_loop [] channel i (suc n) = err out_of_bounds
find_channel_loop (s ∷ subs) channel i (suc n) =
    let rest = find_channel_loop subs channel (suc i) n in
    if str_eq s channel then ok (pos i) else rest

unfoldable pub find_channel_server : Server → Text → Result ℤ
unfolding find_channel_loop
find_channel_server srvr channel =
    find_channel_loop srvr.sub_channels channel 0 (rounds srvr.num_chnnls)

has_channel_loop : List Text → Text → ℕ → Result Bool
has_channel_loop subs channel zero = ok false
has_channel_loop [] channel (suc n) = err out_of_bounds
has_channel_loop (s ∷ subs) channel (suc n) =
    let rest = has_channel_loop subs channel n in if str_eq s channel then ok true else rest

unfoldable pub has_channel_server : Server → Text → Result Bool
unfolding has_channel_loop
has_channel_server srvr channel =
    has_channel_loop srvr.sub_channels channel (rounds srvr.num_chnnls)

-- Its inner loop breaks at the first hit, as the loop above returns there.
unfoldable pub has_channel_servers : List Server → Text → Result ℕ
unfolding has_channel_loop
has_channel_servers [] channel = ok 0
has_channel_servers (srvr ∷ srvrs) channel = do
  hit ← has_channel_loop srvr.sub_channels channel (rounds srvr.num_chnnls)
  rest ← has_channel_servers srvrs channel
  ok (if hit then suc rest else rest)

unfoldable pub addr_cmp : Address → Address → Bool
addr_cmp a b = (a.sin_addr == b.sin_addr) && (a.sin_port == b.sin_port)

-- The index of the server with that address; `i` is the index of the head.
unfoldable pub find_server_address : List Server → Address → ℕ → Option ℕ
find_server_address [] addr i = none
find_server_address (srvr ∷ srvrs) addr i =
    let rest = find_server_address srvrs addr (suc i) in
    if addr_cmp srvr.addr addr then some i else rest

-- `timers[pos]`
read_timer : List (Option ℕ) → ℕ → Result ℕ
read_timer timers position = elim (get_elem? timers position) [
  | none ↦ err out_of_bounds
  | some none ↦ err uninit_read
  | some (some t) ↦ ok t
]

unfoldable pub channel_elapse : ℕ → Server → Text → Result ℤ
unfolding read_timer
channel_elapse now srvr channel = do
  position ← find_channel_server srvr channel
  elim position [
    | pos k ↦ (do t ← read_timer srvr.timers k; ok (sub_ℕ now t))
    | negsuc k ↦ ok (negsuc 0)
  ]

-- `timers[position] = now`, with a position from `find_channel_server`.
unfoldable pub set_timer : ℕ → Server → ℤ → Result Server
set_timer now srvr (pos k) =
    if ltb k (length srvr.timers)
    then ok (record srvr { timers = set srvr.timers k (some now) })
    else err out_of_bounds
set_timer now srvr (negsuc k) = err out_of_bounds

unfoldable pub add_ch_srv : ℕ → Server → Text → Result Server
unfolding set_timer
add_ch_srv now srvr channel = do
  name ← strcpy channel_max channel
  named ← elim srvr.num_chnnls [
    | pos k ↦
        (if ltb k (length srvr.sub_channels)
          then ok (record srvr { sub_channels = set srvr.sub_channels k name })
          else err out_of_bounds)
    | negsuc k ↦ err out_of_bounds
  ]
  timed ← set_timer now named srvr.num_chnnls
  ok (record timed { num_chnnls = incr srvr.num_chnnls })

unfoldable pub channel_cmp : Text → Text → Result Bool
channel_cmp channel sub_name = ok (str_eq sub_name channel)

abbrev pub stray_count : Bool → ℕ
stray_count true = 1
stray_count false = 0

-- `ptrs` and `c_ptrs` are local arrays of `num_chnnls` pointers into the server's two arrays, and
-- `neat_remove` is called on them with the position -1. With the server come the writes that went
-- past the end of a local array.
unfoldable pub remove_adj_channel : Server → Text → Result (Server × ℕ)
unfolding channel_cmp
remove_adj_channel srvr channel =
    if is_nonneg srvr.num_chnnls
    then (do
      names ←
          neat_remove (channel_cmp channel) (some (negsuc 0))
            (map full (take (rounds srvr.num_chnnls) srvr.sub_channels)) srvr.num_chnnls
      let again = incr names.count
      times ←
          neat_remove (λ _. err null_deref) (some (negsuc 0))
            (map full (take (rounds srvr.num_chnnls) srvr.timers)) again
      ok (
        record srvr { num_chnnls = times.count },
        stray_count names.stray + stray_count times.stray,
      ))
    else err out_of_bounds

unfoldable pub remove_ch_srv : Server → Text → Result (Server × ℕ × ℕ)
remove_ch_srv srvr channel = do
  (srvr', strays) ← remove_adj_channel srvr channel
  ok (srvr', strays, 1)

abbrev pub min_2 : ℕ
min_2 = 120

-- `sub_channels[j]`
unfoldable pub sub_channel : Server → ℕ → Result Text
sub_channel srvr j = elim (get_elem? srvr.sub_channels j) [
  | none ↦ err out_of_bounds
  | some name ↦ ok name
]

-- One round of the loop that checks for late timers: channel `j` has not been renewed for two minutes.
expire_one : ℕ → ℕ → Server → Result (Server × ℕ)
unfolding sub_channel
expire_one now j srvr = do
  channel ← sub_channel srvr j
  elapsed ← channel_elapse now srvr channel
  if exceeds elapsed min_2 then remove_adj_channel srvr channel else ok (srvr, 0)

-- `for (int j = 1; j < num_chnnls; j++)`, from `j` on; a removal lowers the count that the loop
-- tests. With the server come the writes past a local array so far.
unfoldable pub expire_loop : ℕ → ℕ → ℕ → Server → ℕ → Result (Server × ℕ)
unfolding expire_one
expire_loop zero now j srvr strays = err out_of_fuel
expire_loop (suc fuel) now j srvr strays =
    let body = (do
      (srvr', more) ← expire_one now j srvr
      expire_loop fuel now (suc j) srvr' (strays + more)) in
    if exceeds srvr.num_chnnls j then body else ok (srvr, strays)

-- The rounds are fewer than the channels, so this fuel is enough.
unfoldable pub expire : ℕ → Server → Result (Server × ℕ)
expire now srvr = expire_loop (suc (rounds srvr.num_chnnls)) now 1 srvr 0
