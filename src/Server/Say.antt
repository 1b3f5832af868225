-- ===== src/Server/Say.antt =====
-- The REQ_SAY case of the server's `main`. `random` is what `gen_rand` returns.
pub mod Delivery
pub mod Failures
use shell_chat_app_multi_ser.Base.{
  ℕ, Bool, true, false, Option, none, some, Text, Result, ok, strcpy, rounds, null_deref, is_nonneg,
  if◌then◌else◌,
}
use shell_chat_app_multi_ser.Duckchat.{Address, channel_max, username_max, say_max}
use shell_chat_app_multi_ser.Cells.{Slot, deref}
use shell_chat_app_multi_ser.Channels.{User, Channel, load, find_byaddr}
use shell_chat_app_multi_ser.Packets.{Request, serv_say, text_say, s2s_fill_say, fill_error}
use shell_chat_app_multi_ser.Adjacent.{Server, find_channel_server}
use shell_chat_app_multi_ser.Recent.{record_id}
use shell_chat_app_multi_ser.Directory.{find_channel, find_user}
use shell_chat_app_multi_ser.Server.State.{
  State, M, pure, fail, get, put, lift, not_null, send, to_client, to_server, for_cells, for_each,
  ◌>>=◌, ◌>>◌,
}

-- A round of the loop that sends the message to a member: the name of the sender is looked up, by its
-- address, among the members.
unfoldable pub say_to : Address → Text → Text → Channel → Slot User → M (Unit {0})
say_to client_addr req_channel req_text active_ch member = do
  s ← get
  channel ← lift (strcpy channel_max req_channel)
  text ← lift (strcpy say_max req_text)
  sender ← lift (find_byaddr s.heap active_ch client_addr)
  usr ← not_null sender
  username ← lift (strcpy username_max usr.username)
  to ← lift (deref member)
  to ← lift (load s.heap to)
  send to.address (to_client (text_say channel username text))

-- A round of the loop over the adjacent servers: it is sent to those that are subscribed.
unfoldable pub say_to_server : Request → Text → Server → M (Unit {0})
say_to_server rss req_channel srvr = do
  position ← lift (find_channel_server srvr req_channel)
  if is_nonneg position then send srvr.addr (to_server rss) else pure tt

-- `rss.id = id`
abbrev pub with_id : ℕ → Request → Request
with_id id (serv_say old username channel text) = serv_say id username channel text
with_id id other = other

unfoldable pub handle_say : ℕ → Address → Text → Text → M (Unit {0})
handle_say random client_addr req_channel req_text = do
  s ← get
  hit ← lift (find_channel s.channels s.num_chnnls req_channel)
  elim hit [
    | none ↦ (do
      chnl_err ← lift (fill_error req_channel)
      send client_addr (to_client chnl_err)
      fail null_deref)
    | some (i, active_ch) ↦ (do
      for_cells (say_to client_addr req_channel req_text active_ch) active_ch.connected_users
          (rounds active_ch.num_users)
      usr ← lift (find_user s.heap s.all_users s.num_users client_addr)
      (position, usr) ← not_null usr
      rss ← lift (s2s_fill_say req_channel usr.username req_text)
      t ← get
      put (record t { recent = record_id t.recent random })
      for_each (say_to_server (with_id random rss) req_channel) t.srvrs)
  ]
