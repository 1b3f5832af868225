-- ===== src/Directory.antt =====
-- The functions of helper_functions.c on the server's two tables: the channels that it knows and the
-- users that are logged in. A `Channel *` into the table is the index at which the channel stands:
-- each channel is made by `add_chnl` or at the start and stands in the table once.
pub mod Laws
use shell_chat_app_multi_ser.Base.{
  ℕ, zero, suc, ◌+◌, ◌*◌, Bool, Option, none, some, List, [], ◌∷◌, Text, str_eq, Result, ok, err,
  null_deref, out_of_bounds, buffer_overflow, ◌>>=◌, strcpy, ℤ, rounds, incr, length, leb,
  if◌then◌else◌,
}
use shell_chat_app_multi_ser.Duckchat.{Address, channel_max}
use shell_chat_app_multi_ser.Cells.{
  Cells, full, deref, write, search, Removed, neat_remove, move_down,
}
use shell_chat_app_multi_ser.Channels.{
  User, Heap, Channel, has_address, create_channel, load, remove_user,
}

abbrev pub has_chnl_name : Text → Channel → Result Bool
has_chnl_name channel_name chnl = ok (str_eq chnl.chnl_name channel_name)

unfoldable pub find_channel : Cells Channel → ℤ → Text → Result (Option (ℕ × Channel))
find_channel chnls chnls_len channel_name =
    search (has_chnl_name channel_name) chnls 0 (rounds chnls_len)

-- With the user comes its position in the table.
unfoldable pub find_user : Heap → Cells User → ℤ → Address → Result (Option (ℕ × User))
find_user heap usrs usrs_len addr = search (has_address heap addr) usrs 0 (rounds usrs_len)

-- The channel comes with the position that it is put at.
unfoldable pub add_chnl : ℕ → Cells Channel → ℤ → Text → Result (Channel × Cells Channel × ℤ)
add_chnl now chnls num_chnls chnl_name = do
  chnl ← create_channel now chnl_name
  chnls' ← write chnls num_chnls (full chnl)
  ok (chnl, chnls', incr num_chnls)

abbrev pub chnl_cmp : Text → Channel → Result Bool
chnl_cmp name chnl = ok (str_eq chnl.chnl_name name)

unfoldable pub remove_chnl : Cells Channel → ℤ → Text → Result (Removed Channel)
remove_chnl chnls num_chnls chnl_name = neat_remove (chnl_cmp chnl_name) none chnls num_chnls

-- A pointer from a search, read through with no test.
abbrev pub checked {ℓ} : {A : Type ℓ} → Option A → Result A
checked none = err null_deref
checked (some a) = ok a

-- REQ_LOGOUT: `channels[i]->remove_user(channels[i], usr->username)` for all `i < num_chnnls`.
unfoldable pub logout_channels : Heap → Option User → Cells Channel → ℕ → Result (Cells Channel)
logout_channels heap usr cells zero = ok cells
logout_channels heap usr [] (suc n) = err out_of_bounds
logout_channels heap usr (c ∷ cells) (suc n) = do
  chnl ← deref c
  u ← checked usr
  (chnl', ret) ← remove_user heap chnl u.username
  cells' ← logout_channels heap usr cells n
  ok (full chnl' ∷ cells')

-- REQ_LOGOUT: `for (i = u_pos; i < num_users - 1; i++) all_users[i] = all_users[i+1]`, given the
-- position and the number of rounds.
unfoldable pub close_users : Cells User → ℕ → ℕ → Result (Cells User)
unfolding move_down
close_users cells zero n = move_down cells n
close_users [] (suc position) n = err out_of_bounds
close_users (c ∷ cells) (suc position) n = do cells' ← close_users cells position n; ok (c ∷ cells')

-- REQ_LIST: `strcpy((re_l->txt_channels + i)->ch_channel, channels[i]->chnl_name)` for all `i`.
unfoldable pub list_names : Cells Channel → ℕ → Result (List Text)
list_names cells zero = ok []
list_names [] (suc n) = err out_of_bounds
list_names (c ∷ cells) (suc n) = do
  chnl ← deref c
  name ← strcpy channel_max chnl.chnl_name
  names ← list_names cells n
  ok (name ∷ names)

-- A text and its terminator, put at an offset of a block of the heap.
abbrev pub strcpy_at : ℕ → ℕ → Text → Result Text
strcpy_at size offset s = if leb (offset + length s + 1) size then ok s else err buffer_overflow

-- REQ_WHO: `strcpy((who->txt_users+i)->us_username, chnl->connected_users[i]->username)` for all `i`,
-- in a block of `size` bytes. The usernames begin at byte 40 of `struct text_who` and take 32 each.
unfoldable pub who_names : Heap → ℕ → Cells User → ℕ → ℕ → Result (List Text)
who_names heap size cells i zero = ok []
who_names heap size [] i (suc n) = err out_of_bounds
who_names heap size (c ∷ cells) i (suc n) = do
  usr ← deref c
  usr ← load heap usr
  name ← strcpy_at size (40 + 32 * i) usr.username
  names ← who_names heap size cells (suc i) n
  ok (name ∷ names)
