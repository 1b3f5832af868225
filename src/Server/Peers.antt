-- ===== src/Server/Peers.antt =====
-- The REQ_SERV_JOIN, REQ_SERV_LEAVE and REQ_SERV_SAY cases of the server's `main`.
pub mod Subscribe
pub mod DeadEnds
pub mod Forward
use shell_chat_app_multi_ser.Base.{
  ℕ, ◌+◌, ◌≤◌, Bool, true, false, not, ◌&&◌, Option, none, some, List, Text, Result, ok, err,
  null_deref, out_of_bounds, ℤ, rounds, is_zero, is_nonneg, get_elem?, set, leb, if◌then◌else◌,
  ◌>>=◌ as bind,
}
use shell_chat_app_multi_ser.Duckchat.{Address}
use shell_chat_app_multi_ser.Cells.{Slot, deref}
use shell_chat_app_multi_ser.Channels.{User, Channel, load}
use shell_chat_app_multi_ser.Packets.{
  Request, Reply, serv_say, s2s_fill_join, s2s_fill_leave, fill_text_say,
}
use shell_chat_app_multi_ser.Adjacent.{
  Server, find_server_address, has_channel_server, has_channel_servers, find_channel_server,
  set_timer, add_ch_srv, remove_adj_channel, addr_cmp,
}
use shell_chat_app_multi_ser.Recent.{has_id, record_id}
use shell_chat_app_multi_ser.Directory.{find_channel, add_chnl}
use shell_chat_app_multi_ser.Server.State.{
  State, M, done, pure, fail, get, put, lift, not_null, send, to_client, to_server, for_cells,
  for_each, tell, ◌>>=◌, ◌>>◌,
}

-- `cnnct_srvrs[i]`, for a pointer that `find_server_address` returned.
abbrev pub server_at : List Server → ℕ → Result Server
server_at srvrs i = elim (get_elem? srvrs i) [ none ↦ err out_of_bounds | some srvr ↦ ok srvr ]

-- The subscription of the server that the request came from is added or renewed. A sender that is no
-- adjacent server is NULL, which `has_channel_server` reads through.
unfoldable pub subscribe : ℕ → Address → Text → M (Unit {0})
subscribe now client_addr channel = do
  s ← get
  i ← not_null (find_server_address s.srvrs client_addr 0)
  srvr ← lift (server_at s.srvrs i)
  has ← lift (has_channel_server srvr channel)
  srvr' ← lift (if has then renew srvr else add_ch_srv now srvr channel)
  put (record s { srvrs = set s.srvrs i srvr' })
  where
    renew : Server → Result Server
    renew srvr = bind (find_channel_server srvr channel) (set_timer now srvr)

-- A channel that the server does not have is made, and the join passed on to every adjacent server.
unfoldable pub handle_serv_join : ℕ → Address → Text → M (Unit {0})
unfolding subscribe
handle_serv_join now client_addr channel = do
  subscribe now client_addr channel
  s ← get
  active ← lift (find_channel s.channels s.num_chnnls channel)
  elim active [
    | none ↦ (do
      (chnl, channels, num) ← lift (add_chnl now s.channels s.num_chnnls channel)
      put (record s { channels = channels; num_chnnls = num })
      nrjs ← lift (s2s_fill_join channel)
      for_each (tell nrjs) s.srvrs)
    | some hit ↦ pure tt
  ]

unfoldable pub handle_serv_leave : Address → Text → M (Unit {0})
handle_serv_leave client_addr channel = do
  s ← get
  i ← not_null (find_server_address s.srvrs client_addr 0)
  srvr ← lift (server_at s.srvrs i)
  (srvr', strays) ← lift (remove_adj_channel srvr channel)
  put (record s { srvrs = set s.srvrs i srvr'; stray_writes = s.stray_writes + strays })

-- `s2s_fill_leave` and a `socket_send` back to where the say came from.
unfoldable pub send_leave : Address → Text → M (Unit {0})
send_leave client_addr channel = do
  rls ← lift (s2s_fill_leave channel)
  send client_addr (to_server rls)

-- A round of the loop that sends the message to the members.
abbrev pub deliver : Reply → Slot User → M (Unit {0})
deliver ts member = do
  s ← get
  usr ← lift (deref member)
  usr ← lift (load s.heap usr)
  send usr.address (to_client ts)

-- A round of the loop over the adjacent servers: to those that are subscribed, but not back.
unfoldable pub pass_on : Address → Request → Text → Server → M (Unit {0})
pass_on client_addr sss channel srvr = do
  subbed ← lift (find_channel_server srvr channel)
  if is_nonneg subbed && not (addr_cmp srvr.addr client_addr)
      then send srvr.addr (to_server sss)
      else pure tt

-- `active->num_users == 0 && has_channel_servers(...) <= 1`
unfoldable pub is_dead_end : Channel → List Server → Text → Result Bool
is_dead_end active srvrs channel =
    if is_zero active.num_users
    then bind (has_channel_servers srvrs channel) (λ n. ok (leb n 1))
    else ok false

unfoldable pub handle_serv_say : Address → ℕ → Text → Text → Text → M (Unit {0})
handle_serv_say client_addr id username channel text = do
  s ← get
  seen ← lift (has_id s.recent.recent_ids s.recent.num_ids id)
  elim seen [
    | true ↦ send_leave client_addr channel
    | false ↦ (do
      put (record s { recent = record_id s.recent id })
      hit ← lift (find_channel s.channels s.num_chnnls channel)
      (i, active) ← not_null hit
      dead ← lift (is_dead_end active s.srvrs channel)
      elim dead [
        | true ↦ send_leave client_addr channel
        | false ↦ (do
          ts ← lift (fill_text_say channel username text)
          for_cells (deliver ts) active.connected_users (rounds active.num_users)
          for_each (pass_on client_addr (serv_say id username channel text) channel) s.srvrs)
      ])
  ]
