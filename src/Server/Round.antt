-- ===== src/Server/Round.antt =====
-- A round of the loop of the server's `main`, and a run of rounds.
pub mod Renewal
pub mod Check
use shell_chat_app_multi_ser.Base.{
  ℕ, zero, suc, ◌+◌, ◌-◌, List, [], ◌∷◌, Result, ok, ◌>>=◌ as bind, rounds, exceeds, sub_ℕ,
  if◌then◌else◌,
}
use shell_chat_app_multi_ser.Duckchat.{Address}
use shell_chat_app_multi_ser.Channels.{Channel}
use shell_chat_app_multi_ser.Packets.{
  Request, login, logout, join, leave, say, list, who, keep_alive, serv_join, serv_leave, serv_say,
  unknown, s2s_fill_join,
}
use shell_chat_app_multi_ser.Adjacent.{Server, expire}
use shell_chat_app_multi_ser.Server.State.{
  State, M, Outcome, done, failed, continue, pure, get, put, lift, send, to_server, for_each,
  channel_at, put_channel, tell, ◌>>=◌, ◌>>◌,
}
use shell_chat_app_multi_ser.Server.Users.{handle_login, handle_logout}
use shell_chat_app_multi_ser.Server.Say.{handle_say}
use shell_chat_app_multi_ser.Server.Rooms.{
  Next, resub, next_round, handle_join, handle_leave, handle_list, handle_who,
}
use shell_chat_app_multi_ser.Server.Peers.{
  server_at, handle_serv_join, handle_serv_leave, handle_serv_say,
}

-- The check for late timers, at each adjacent server.
unfoldable pub expire_all : ℕ → List Server → Result (List Server × ℕ)
expire_all now [] = ok ([], 0)
expire_all now (srvr ∷ srvrs) = bind (expire now srvr) λ (srvr', strays).
    bind (expire_all now srvrs) λ (srvrs', more). ok (srvr' ∷ srvrs', strays + more)

unfoldable pub check_timers : ℕ → M (Unit {0})
check_timers now = do
  s ← get
  (srvrs, strays) ← lift (expire_all now s.srvrs)
  put (record s { srvrs = srvrs; stray_writes = s.stray_writes + strays })

-- `switch (rq->req_type)`. A keep-alive has no case of its own.
unfoldable pub dispatch : ℕ → ℕ → Address → Request → M Next
dispatch now random from (login username) = do handle_login from username; pure resub
dispatch now random from logout = do handle_logout from; pure resub
dispatch now random from (join channel) = handle_join now from channel
dispatch now random from (leave channel) = handle_leave from channel
dispatch now random from (say channel text) = do handle_say random from channel text; pure resub
dispatch now random from list = handle_list from
dispatch now random from (who channel) = handle_who from channel
dispatch now random from keep_alive = pure resub
dispatch now random from (serv_join channel) = do handle_serv_join now from channel; pure resub
dispatch now random from (serv_leave channel) = do handle_serv_leave from channel; pure resub
dispatch now random from (serv_say id username channel text) = do
  handle_serv_say from id username channel text
  pure resub
dispatch now random from (unknown type) = pure resub

-- A join sent to an adjacent server again. The line that is printed before reads the address of
-- `cnnct_srvrs[i]`, where `i` is the position of the channel.
unfoldable pub renew_to : ℕ → Channel → Server → M (Unit {0})
renew_to i chnl srvr = do
  rjs ← lift (s2s_fill_join chnl.chnl_name)
  s ← get
  printed ← lift (server_at s.srvrs i)
  tell rjs srvr

abbrev pub min_1 : ℕ
min_1 = 60

unfoldable pub renew_channel : ℕ → ℕ → M (Unit {0})
renew_channel now i = do
  s ← get
  chnl ← lift (channel_at s.channels i)
  if exceeds (sub_ℕ now chnl.tm) min_1
      then (do for_each (renew_to i chnl) s.srvrs; put_channel i (record chnl { tm = now }))
      else pure tt

-- `for (int i = 1; i < num_chnnls; i++)` from `i` on, with the rounds that are left.
unfoldable pub renew_from : ℕ → ℕ → ℕ → M (Unit {0})
renew_from now i zero = pure tt
renew_from now i (suc n) = do renew_channel now i; renew_from now (suc i) n

unfoldable pub renew : ℕ → M (Unit {0})
renew now = do s ← get; renew_from now 1 (rounds s.num_chnnls - 1)

-- What a round meets: the time at its check of the timers, in the request's case and at the
-- renewals, a random number, and either no datagram or a request with its sender.
pub data Arrival : Type 0 where
  nothing : Arrival
  packet : Address → Request → Arrival

pub record Event : Type 0 where
  pub checked : ℕ
  pub handled : ℕ
  pub renewed : ℕ
  pub random : ℕ
  pub arrival : Arrival

-- The request's part of a round.
unfoldable pub receive : Event → Arrival → M Next
receive e nothing = pure resub
receive e (packet from rq) = dispatch e.handled e.random from rq

abbrev pub finish : ℕ → Next → M (Unit {0})
finish now resub = renew now
finish now next_round = pure tt

unfoldable pub round : Event → M (Unit {0})
round e = do check_timers e.checked; next ← receive e e.arrival; finish e.renewed next

-- Rounds one after another; the first fault ends the run.
unfoldable pub run : List Event → M (Unit {0})
run [] = pure tt
run (e ∷ es) = do round e; run es
