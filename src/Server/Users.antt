-- ===== src/Server/Users.antt =====
-- The REQ_LOGIN and REQ_LOGOUT cases of the server's `main`. `client_addr` is the address that the
-- request came from, and 16 the length that `recvfrom` gives of it.
pub mod Login
pub mod Dropping
pub mod Logout
use shell_chat_app_multi_ser.Base.{
  ℕ, zero, suc, ◌-◌, Option, none, some, ◌∷◌, Text, uninit_read, rounds, incr, decr,
}
use shell_chat_app_multi_ser.Duckchat.{Address}
use shell_chat_app_multi_ser.Cells.{full, write}
use shell_chat_app_multi_ser.Channels.{User, create_user, remove_user, found}
use shell_chat_app_multi_ser.Directory.{find_user, logout_channels, close_users}
use shell_chat_app_multi_ser.Server.State.{
  State, M, done, pure, fail, get, put, lift, channel_at, put_channel, ◌>>=◌, ◌>>◌,
}

abbrev pub addr_len : ℕ
addr_len = 16

-- A user is made by way of channel 0, where it is taken out again.
unfoldable pub handle_login : Address → Text → M (Unit {0})
handle_login client_addr req_username = do
  s ← get
  first ← lift (channel_at s.channels 0)
  (usr, joined, heap) ← lift (create_user s.heap first req_username client_addr addr_len)
  put (record s { heap = heap })
  put_channel 0 joined
  (left, ret) ← lift (remove_user heap joined usr.username)
  put_channel 0 left
  t ← get
  users ← lift (write t.all_users t.num_users (full usr))
  put (record t { all_users = users; num_users = incr t.num_users })

-- `u_pos` is unassigned if the user is not found.
abbrev pub u_pos : Option (ℕ × User) → M ℕ
u_pos none = fail uninit_read
u_pos (some (i, usr)) = pure i

-- `free(usr)`
abbrev pub free : User → M (Unit {0})
free usr s = done tt (record s { heap = record s.heap { freed = usr.id ∷ s.heap.freed } })

-- The user is looked up by address, and taken out of every channel, a member there or not.
unfoldable pub handle_logout : Address → M (Unit {0})
handle_logout client_addr = do
  s ← get
  hit ← lift (find_user s.heap s.all_users s.num_users client_addr)
  channels ← lift (logout_channels s.heap (found hit) s.channels (rounds s.num_chnnls))
  put (record s { channels = channels })
  position ← u_pos hit
  t ← get
  users ← lift (close_users t.all_users position (rounds t.num_users - 1 - position))
  put (record t { all_users = users; num_users = decr t.num_users })
  elim hit [ none ↦ pure tt | some (i, usr) ↦ free usr ]
