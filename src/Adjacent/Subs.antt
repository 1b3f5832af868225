-- ===== src/Adjacent/Subs.antt =====
-- An adjacent server as the list of the channels it is subscribed to.
use shell_chat_app_multi_ser.Base.{
  ℕ, zero, suc, ◌≤◌, ◌<◌, ◌≡◌, refl, ◌∙◌, Bool, some, List, [], ◌∷◌, ◌++◌, Text, str_eq, ok, ℤ, pos,
  negsuc, rounds, is_nonneg, length, set, take, length-set, take-set, any, lt→ltb, if◌then◌else◌,
  arith, All, strcpy-ok,
}
use shell_chat_app_multi_ser.Duckchat.{Address, channel_max, max_channels, common}
use shell_chat_app_multi_ser.Channels.{comp_sockaddr}
use shell_chat_app_multi_ser.Adjacent.{
  Server, adjacent, find_channel_loop, find_channel_server, has_channel_loop, has_channel_server,
  has_channel_servers, addr_cmp, add_ch_srv,
}

-- The names of the subscribed channels, oldest first.
abbrev pub subs : Server → List Text
subs srvr = take (rounds srvr.num_chnnls) srvr.sub_channels

-- The count is not negative and the arrays have their declared sizes.
pub record IsSound (srvr : Server) : Type 0 where
  pub count : srvr.num_chnnls ≡ pos (rounds srvr.num_chnnls)
  pub room : rounds srvr.num_chnnls ≤ max_channels
  pub names : length srvr.sub_channels ≡ max_channels
  pub slots : length srvr.timers ≡ max_channels

-- What `strcmp` tests in the loops over the subscriptions.
abbrev pub is_named : Text → Text → Bool
is_named channel sub = str_eq sub channel

-- The index of the first text equal to the channel, -1 if there is none.
abbrev pub index_of : Text → ℕ → List Text → ℤ
index_of channel i [] = negsuc 0
index_of channel i (s ∷ subs) =
    let rest = index_of channel (suc i) subs in if is_named channel s then pos i else rest

pub adjacent-IsSound :
    (addr : Address) → IsSound (adjacent addr) × (subs (adjacent addr) ≡ common ∷ [])
unfolding adjacent
adjacent-IsSound addr =
    (record { count = refl; room = omega arith; names = refl; slots = refl }, refl)

find_channel_loop-index :
    (xs : List Text) (channel : Text) (i n : ℕ)
    → n ≤ length xs
    → find_channel_loop xs channel i n ≡ ok (index_of channel i (take n xs))
unfolding find_channel_loop
find_channel_loop-index xs channel i zero h = refl
find_channel_loop-index [] channel i (suc n) h = elim h [ ]
find_channel_loop-index (x ∷ xs) channel i (suc n) h =
    ground (arith, find_channel_loop-index xs channel (suc i) n)

has_channel_loop-any :
    (xs : List Text) (channel : Text) (n : ℕ)
    → n ≤ length xs
    → has_channel_loop xs channel n ≡ ok (any (is_named channel) (take n xs))
unfolding has_channel_loop
has_channel_loop-any xs channel zero h = refl
has_channel_loop-any [] channel (suc n) h = elim h [ ]
has_channel_loop-any (x ∷ xs) channel (suc n) h = ground (arith, has_channel_loop-any xs channel n)

pub find_channel_server-index :
    (srvr : Server) (channel : Text)
    → IsSound srvr
    → find_channel_server srvr channel ≡ ok (index_of channel 0 (subs srvr))
unfolding find_channel_server
find_channel_server-index srvr channel v =
    find_channel_loop-index srvr.sub_channels channel 0 (rounds srvr.num_chnnls)
      (omega (arith, v.room, v.names))

pub has_channel_server-any :
    (srvr : Server) (channel : Text)
    → IsSound srvr
    → has_channel_server srvr channel ≡ ok (any (is_named channel) (subs srvr))
unfolding has_channel_server
has_channel_server-any srvr channel v =
    has_channel_loop-any srvr.sub_channels channel (rounds srvr.num_chnnls)
      (omega (arith, v.room, v.names))

pub index_of-any :
    (channel : Text) (i : ℕ) (xs : List Text)
    → is_nonneg (index_of channel i xs) ≡ any (is_named channel) xs
index_of-any channel i [] = refl
index_of-any channel i (x ∷ xs) = ground (arith, index_of-any channel (suc i) xs)

-- How many of the servers are subscribed.
abbrev pub subscribers : List Server → Text → ℕ
subscribers [] channel = 0
subscribers (s ∷ srvrs) channel =
    let rest = subscribers srvrs channel in
    if any (is_named channel) (subs s) then suc rest else rest

pub has_channel_servers-count :
    (srvrs : List Server) (channel : Text)
    → All IsSound srvrs
    → has_channel_servers srvrs channel ≡ ok (subscribers srvrs channel)
unfolding has_channel_servers
has_channel_servers-count [] channel v = refl
has_channel_servers-count (s ∷ srvrs) channel v =
    rw
      (
        has_channel_loop-any s.sub_channels channel (rounds s.num_chnnls)
            (omega (arith, v.0.room, v.0.names)),
        has_channel_servers-count srvrs channel v.1,
      )
      (ground arith)

-- For a sound server, the three ways in which the code asks whether it is subscribed to a channel
-- succeed and agree: by `find_channel_server`, by `has_channel_server` and by `has_channel_servers`
-- on that server alone.
pub subscription_tests_agree :
    (srvr : Server) (channel : Text)
    → IsSound srvr
    → (k : ℤ) × (find_channel_server srvr channel ≡ ok k)
      × (has_channel_server srvr channel ≡ ok (is_nonneg k))
      × (has_channel_servers (srvr ∷ []) channel ≡ ok (if is_nonneg k then 1 else 0))
subscription_tests_agree srvr channel v = (
  index_of channel 0 (subs srvr),
  find_channel_server-index srvr channel v,
  rw (index_of-any channel 0 (subs srvr)) (has_channel_server-any srvr channel v),
  rw (index_of-any channel 0 (subs srvr)) (has_channel_servers-count (srvr ∷ []) channel (v, tt)),
)

-- The two address comparisons are one function.
pub addr_cmp-comp_sockaddr : (a b : Address) → addr_cmp a b ≡ comp_sockaddr a b
unfolding addr_cmp comp_sockaddr
addr_cmp-comp_sockaddr a b = refl

-- `add_ch_srv` on a sound server with room, and a name that fits, adds the channel behind the others.
pub add_ch_srv-append :
    (now : ℕ) (srvr : Server) (channel : Text)
    → IsSound srvr
    → rounds srvr.num_chnnls < max_channels
    → length channel < channel_max
    → (srvr' : Server) × (add_ch_srv now srvr channel ≡ ok srvr')
      × IsSound srvr'
      × (subs srvr' ≡ subs srvr ++ channel ∷ [])
      × (srvr'.addr ≡ srvr.addr)
      × (srvr'.timers ≡ set srvr.timers (rounds srvr.num_chnnls) (some now))
unfolding add_ch_srv
add_ch_srv-append now srvr channel v room fits =
    let n = rounds srvr.num_chnnls in
    (
      record srvr {
        sub_channels = set srvr.sub_channels n channel;
        timers = set srvr.timers n (some now);
        num_chnnls = pos (suc n);
      },
      rw
          (
            strcpy-ok channel_max channel fits,
            v.count,
            lt→ltb n (length srvr.sub_channels) (omega (arith, v.names, room)),
            lt→ltb n (length srvr.timers) (omega (arith, v.slots, room)),
          )
          refl,
      record {
        count = refl;
        room = room;
        names = length-set srvr.sub_channels n channel ∙ v.names;
        slots = length-set srvr.timers n (some now) ∙ v.slots;
      },
      take-set srvr.sub_channels n channel (omega (arith, v.names, room)),
      refl,
      refl,
    )
