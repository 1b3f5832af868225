-- ===== src/Server/Rooms.antt =====
-- The REQ_JOIN, REQ_LEAVE, REQ_LIST and REQ_WHO cases of the server's `main`. A case that ends in
-- `continue` goes on to the next round at once, the others by way of the renewals.
pub mod Join
pub mod Leave
pub mod Who
pub mod Info
use shell_chat_app_multi_ser.Base.{
  ℕ, zero, suc, ◌+◌, ◌*◌, Bool, true, false, Option, none, some, List, [], Text, Result, ok, strcpy,
  ℤ, rounds, is_zero, if◌then◌else◌, length,
}
use shell_chat_app_multi_ser.Duckchat.{Address, channel_max}
use shell_chat_app_multi_ser.Cells.{Slot, null, full}
use shell_chat_app_multi_ser.Channels.{User, Channel, add_user, remove_user, found}
use shell_chat_app_multi_ser.Packets.{
  Request, text_list, text_who, fill_error, fill_who_error, s2s_fill_join, s2s_fill_leave,
}
use shell_chat_app_multi_ser.Adjacent.{Server, stray_count}
use shell_chat_app_multi_ser.Directory.{
  find_channel, find_user, add_chnl, remove_chnl, list_names, who_names, strcpy_at,
}
use shell_chat_app_multi_ser.Server.State.{
  State, M, done, pure, get, put, lift, not_null, send, to_client, to_server, for_each, put_channel,
  tell, ◌>>=◌, ◌>>◌,
}

-- How a case ends.
pub data Next : Type 0 where
  resub next_round : Next

-- A pointer from a search, which may be NULL, as the code stores it.
abbrev pub slot_of : Option (ℕ × User) → Slot User
slot_of none = null
slot_of (some (i, usr)) = full usr

-- The channel to join, with its position: the one that was found, or a new one.
unfoldable pub join_channel : ℕ → Text → Option (ℕ × Channel) → M (ℕ × Channel)
join_channel now req_channel (some hit) = pure hit
join_channel now req_channel none = do
  s ← get
  (chnl, channels, num) ← lift (add_chnl now s.channels s.num_chnnls req_channel)
  put (record s { channels = channels; num_chnnls = num })
  pure (rounds s.num_chnnls, chnl)

unfoldable pub handle_join : ℕ → Address → Text → M Next
handle_join now client_addr req_channel = do
  s ← get
  new_chnl ← lift (find_channel s.channels s.num_chnnls req_channel)
  rjs ← lift (s2s_fill_join req_channel)
  for_each (tell rjs) s.srvrs
  (i, chnl) ← join_channel now req_channel new_chnl
  t ← get
  usr ← lift (find_user t.heap t.all_users t.num_users client_addr)
  chnl' ← lift (add_user chnl (slot_of usr))
  put_channel i chnl'
  pure resub

-- What follows when a channel has lost its last member.
unfoldable pub close_channel : Channel → M (Unit {0})
close_channel chnl = do
  rls ← lift (s2s_fill_leave chnl.chnl_name)
  s ← get
  for_each (tell rls) s.srvrs
  t ← get
  r ← lift (remove_chnl t.channels t.num_chnnls chnl.chnl_name)
  put (record t {
    channels = r.cells;
    num_chnnls = r.count;
    stray_writes = t.stray_writes + stray_count r.stray;
  })

unfoldable pub handle_leave : Address → Text → M Next
handle_leave client_addr req_channel = do
  s ← get
  hit ← lift (find_channel s.channels s.num_chnnls req_channel)
  elim hit [
    | none ↦ (do
      terr ← lift (fill_error req_channel)
      send client_addr (to_client terr)
      pure next_round)
    | some (i, chnl) ↦ (do
      usr ← lift (find_user s.heap s.all_users s.num_users client_addr)
      (position, usr) ← not_null usr
      (chnl', ret) ← lift (remove_user s.heap chnl usr.username)
      put_channel i chnl'
      (if is_zero chnl'.num_users then close_channel chnl' else pure tt)
      pure resub)
  ]

unfoldable pub handle_list : Address → M Next
handle_list client_addr = do
  s ← get
  names ← lift (list_names s.channels (rounds s.num_chnnls))
  send client_addr (to_client (text_list (rounds s.num_chnnls) names))
  pure resub

-- `sizeof(struct request_who)`; `struct text_who` has 40 bytes before its usernames.
abbrev pub request_who_size : ℕ
request_who_size = 36

abbrev pub who_len : ℕ → ℕ
who_len num_users = request_who_size + num_users * 32

unfoldable pub handle_who : Address → Text → M Next
handle_who client_addr req_channel = do
  s ← get
  let size = who_len (rounds s.num_users)
  field ← lift (strcpy channel_max req_channel)
  channel ← lift (strcpy_at size 8 field)
  hit ← lift (find_channel s.channels s.num_chnnls req_channel)
  elim hit [
    | none ↦ (do
      te ← lift (fill_who_error req_channel)
      send client_addr (to_client te)
      pure next_round)
    | some (i, chnl) ↦ (do
      names ← lift (who_names s.heap size chnl.connected_users 0 (rounds chnl.num_users))
      send client_addr (to_client (text_who size (rounds chnl.num_users) channel names))
      pure resub)
  ]
