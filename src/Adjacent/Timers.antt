-- ===== src/Adjacent/Timers.antt =====
-- The timers of an adjacent server's subscriptions.
use shell_chat_app_multi_ser.Base.{
  ℕ, suc, ◌+◌, ◌<◌, ◌≡◌, refl, ap, false, some, List, [], ◌∷◌, ◌++◌, Text, str_eq_refl, ok, pos,
  rounds, sub_ℕ, length, length-take, any, get_elem?, get_elem?-set_self, arith,
}
use shell_chat_app_multi_ser.Duckchat.{channel_max, max_channels}
use shell_chat_app_multi_ser.Adjacent.{Server, channel_elapse, read_timer, add_ch_srv}
use shell_chat_app_multi_ser.Adjacent.Subs.{
  IsSound, subs, is_named, index_of, find_channel_server-index, add_ch_srv-append,
}

-- The time since the last renewal, of a subscribed channel whose timer is set.
pub channel_elapse-set :
    (now t : ℕ) (srvr : Server) (channel : Text) (k : ℕ)
    → IsSound srvr
    → index_of channel 0 (subs srvr) ≡ pos k
    → get_elem? srvr.timers k ≡ some (some t)
    → channel_elapse now srvr channel ≡ ok (sub_ℕ now t)
unfolding channel_elapse
channel_elapse-set now t srvr channel k v e h =
    rw (find_channel_server-index srvr channel v, e, read_timer, h) refl

index_of-last :
    (channel : Text) (i : ℕ) (xs : List Text)
    → any (is_named channel) xs ≡ false
    → index_of channel i (xs ++ channel ∷ []) ≡ pos (i + length xs)
index_of-last channel i [] h = rw (str_eq_refl channel) (ap pos (omega arith))
index_of-last channel i (x ∷ xs) h = ground (arith, index_of-last channel (suc i) xs)

-- After a sound server with a subscription left was given a new channel, whose name fits its field,
-- at time `t`, the time that has elapsed for the channel at `now` is `now - t`.
pub channel_elapse-add_ch_srv :
    (t now : ℕ) (srvr : Server) (channel : Text)
    → IsSound srvr
    → rounds srvr.num_chnnls < max_channels
    → length channel < channel_max
    → any (is_named channel) (subs srvr) ≡ false
    → (srvr' : Server) × (add_ch_srv t srvr channel ≡ ok srvr')
      × (channel_elapse now srvr' channel ≡ ok (sub_ℕ now t))
channel_elapse-add_ch_srv t now srvr channel v room fits new =
    let (srvr', e, v', s, a, timed) = add_ch_srv-append t srvr channel v room fits in
    let n = rounds srvr.num_chnnls in
    let size : length (subs srvr) ≡ n =
      omega (arith, length-take n srvr.sub_channels, v.names, room) in
    (
      srvr',
      e,
      channel_elapse-set now t srvr' channel n v'
          (rw (s, index_of-last channel 0 (subs srvr) new) (ap pos (omega (arith, size))))
          (rw timed (get_elem?-set_self srvr.timers n (some t) (omega (arith, v.slots, room)))),
    )
