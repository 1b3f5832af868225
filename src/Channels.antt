-- ===== src/Channels.antt =====
-- channels.c: users, channels, and the operations that a channel carries as function pointers.
-- A `User *` is the user's allocation number with its fields, which no code changes after
-- `create_user`; what can change is whether the allocation is still live. `malloc` does not fail.
pub mod SockAddr
pub mod Members
pub mod Remove
use shell_chat_app_multi_ser.Base.{
  ℕ, zero, suc, ◌≡◌, Bool, true, false, ◌&&◌, Option, none, some, List, [], ◌∷◌, map, Text, str_eq,
  Result, ok, err, ◌>>=◌, use_after_free, out_of_bounds, strcpy, ℤ, pos, rounds, incr, decr, any,
  replicate, ◌==◌, if◌then◌else◌,
}
use shell_chat_app_multi_ser.Duckchat.{Address, username_max, channel_max, max_users}
use shell_chat_app_multi_ser.Cells.{Cells, Slot, uninit, null, full, deref, write, search}

pub record User : Type 0 where
  pub id : ℕ
  pub username : Text
  pub address : Address
  pub addresslen : ℕ

-- The allocations of users: the next number, and those that were freed.
pub record Heap : Type 0 where
  pub next : ℕ
  pub freed : List ℕ

abbrev pub is_freed : Heap → ℕ → Bool
is_freed heap id = any (λ k. k == id) heap.freed

-- A read of the object behind a `User *`.
unfoldable pub load : Heap → User → Result User
load heap usr = if is_freed heap usr.id then err use_after_free else ok usr

pub record Channel : Type 0 where
  pub chnl_name : Text
  pub connected_users : Cells User
  pub num_users : ℤ
  pub tm : ℕ

-- The user that a search returns, without its index.
abbrev pub found {ℓ} : {A : Type ℓ} → Option (ℕ × A) → Option A
found none = none
found (some (i, a)) = some a

abbrev pub has_name : Heap → Text → User → Result Bool
has_name heap username usr = do usr ← load heap usr; ok (str_eq username usr.username)

unfoldable pub find_users : Heap → Channel → Text → Result (Option User)
find_users heap chnl username = do
  hit ← search (has_name heap username) chnl.connected_users 0 (rounds chnl.num_users)
  ok (found hit)

-- `usr` may be NULL.
unfoldable pub add_user : Channel → Slot User → Result Channel
add_user chnl usr = do
  cells ← write chnl.connected_users chnl.num_users usr
  ok (record chnl { connected_users = cells; num_users = incr chnl.num_users })

-- What `create_user` writes into the object that `malloc` gives it.
abbrev pub new_user : Heap → Text → Address → ℕ → User
new_user heap username addr len = record {
  id = heap.next;
  username = username;
  address = addr;
  addresslen = len;
}

unfoldable pub create_user : Heap → Channel → Text → Address → ℕ → Result (User × Channel × Heap)
create_user heap chnl username addr len = do
  name ← strcpy username_max username
  let new_u = new_user heap name addr len
  cells ← write chnl.connected_users chnl.num_users (full new_u)
  ok (
    new_u,
    record chnl { connected_users = cells; num_users = incr chnl.num_users },
    record heap { next = suc heap.next },
  )

-- The loop of `remove_user` once `move` is set: `users[i-1] = users[i]; users[i] = NULL`. The list
-- starts at `i - 1`.
close_gap : Cells User → ℕ → Result (Cells User)
close_gap cells zero = ok cells
close_gap [] (suc n) = err out_of_bounds
close_gap (hole ∷ []) (suc n) = err out_of_bounds
close_gap (hole ∷ c ∷ cells) (suc n) = do moved ← close_gap (null ∷ cells) n; ok (c ∷ moved)

-- Its loop before that. `ret` is unassigned until the user is found.
remove_user_loop : Heap → Text → Cells User → ℕ → Result (Cells User × Slot User)
remove_user_loop heap username cells zero = ok (cells, uninit)
remove_user_loop heap username [] (suc n) = err out_of_bounds
remove_user_loop heap username (c ∷ cells) (suc n) = do
  usr ← deref c
  usr ← load heap usr
  let later = (do (cells', ret) ← remove_user_loop heap username cells n; ok (c ∷ cells', ret))
  if str_eq usr.username username
      then (do moved ← close_gap (c ∷ cells) n; ok (moved, c))
      else later

unfoldable pub remove_user : Heap → Channel → Text → Result (Channel × Slot User)
unfolding remove_user_loop close_gap
remove_user heap chnl username = do
  (cells, ret) ← remove_user_loop heap username chnl.connected_users (rounds chnl.num_users)
  ok (record chnl { connected_users = cells; num_users = decr chnl.num_users }, ret)

unfoldable pub comp_sockaddr : Address → Address → Bool
comp_sockaddr a b = (a.sin_addr == b.sin_addr) && (a.sin_port == b.sin_port)

abbrev pub has_address : Heap → Address → User → Result Bool
has_address heap addr usr = do usr ← load heap usr; ok (comp_sockaddr usr.address addr)

unfoldable pub find_byaddr : Heap → Channel → Address → Result (Option User)
find_byaddr heap chnl addr = do
  hit ← search (has_address heap addr) chnl.connected_users 0 (rounds chnl.num_users)
  ok (found hit)

unfoldable pub init_channel : Channel → Channel
init_channel chnl = record chnl { num_users = pos 0 }

-- `now` is what `time(NULL)` returns.
unfoldable pub create_channel : ℕ → Text → Result Channel
create_channel now chnl_name = do
  name ← strcpy channel_max chnl_name
  ok (record {
    chnl_name = name;
    connected_users = replicate max_users uninit;
    num_users = pos 0;
    tm = now;
  })
