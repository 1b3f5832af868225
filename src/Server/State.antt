-- ===== src/Server/State.antt =====
-- The local variables of the server's `main`, and the steps of its handlers: a step ends with a value
-- and a new state, or with a fault and the state in which it came.
pub mod Loops
use shell_chat_app_multi_ser.Base.{
  ℕ, zero, suc, ◌+◌, Option, none, some, List, [], ◌∷◌, ◌++◌, Result, ok, err, Fault, null_deref,
  out_of_bounds, ℤ, pos, get_elem?, set, replicate, length, ltb, if◌then◌else◌,
}
use shell_chat_app_multi_ser.Duckchat.{Address, max_users}
use shell_chat_app_multi_ser.Cells.{Cells, Slot, full, uninit, deref}
use shell_chat_app_multi_ser.Channels.{User, Heap, Channel}
use shell_chat_app_multi_ser.Packets.{Request, Reply}
use shell_chat_app_multi_ser.Adjacent.{Server}
use shell_chat_app_multi_ser.Recent.{Recent}

pub data Message : Type 0 where
  to_server : Request → Message
  to_client : Reply → Message

-- What `socket_send` hands to the socket.
pub record Datagram : Type 0 where
  pub dest : Address
  pub message : Message

-- `channels` and `all_users` are arrays of 32 pointers. `sent` holds all that was sent, oldest first.
-- `stray_writes` counts the writes that `neat_remove` made past the end of the array that it was given;
-- such a write is taken to hit none of the variables here.
pub record State : Type 0 where
  pub srvrs : List Server
  pub recent : Recent
  pub channels : Cells Channel
  pub num_chnnls : ℤ
  pub all_users : Cells User
  pub num_users : ℤ
  pub heap : Heap
  pub sent : List Datagram
  pub stray_writes : ℕ

pub data Outcome (A : Type 0) : Type 0 where
  done : A → State → Outcome A
  failed : Fault → State → Outcome A

abbrev pub M : Type 0 → Type 0
M A = State → Outcome A

abbrev pub pure : {A : Type 0} → A → M A
pure a s = done a s

abbrev pub fail : {A : Type 0} → Fault → M A
fail e s = failed e s

-- What a step goes on to do, after its first part came out so.
abbrev pub continue : {A B : Type 0} → Outcome A → (A → M B) → Outcome B
continue (done a s) f = f a s
continue (failed e s) f = failed e s

infixl 5 ◌>>=◌ ◌>>◌
abbrev pub ◌>>=◌ : {A B : Type 0} → M A → (A → M B) → M B
◌>>=◌ m f s = continue (m s) f

abbrev pub ◌>>◌ : {B : Type 0} → M (Unit {0}) → M B → M B
m >> k = m >>= λ _. k

abbrev pub get : M State
get s = done s s

abbrev pub put : State → M (Unit {0})
put s _ = done tt s

-- A call that changes no variable of `main`.
abbrev pub lift : {A : Type 0} → Result A → M A
lift (ok a) s = done a s
lift (err e) s = failed e s

-- A pointer that the code reads through without a test.
abbrev pub not_null : {A : Type 0} → Option A → M A
not_null none = fail null_deref
not_null (some a) = pure a

abbrev pub send : Address → Message → M (Unit {0})
send addr m s = done tt (record s { sent = s.sent ++ record { dest = addr; message = m } ∷ [] })

-- `channels[i]`, read through.
abbrev pub channel_at : Cells Channel → ℕ → Result Channel
channel_at cells i = elim (get_elem? cells i) [ none ↦ err out_of_bounds | some c ↦ deref c ]

-- A change of the channel that `channels[i]` points to.
abbrev pub put_channel : ℕ → Channel → M (Unit {0})
put_channel i chnl s = done tt (record s { channels = set s.channels i (full chnl) })

-- `for (int i = 0; i < n; i++)` over the first entries of an array.
unfoldable pub for_cells : {A : Type 0} → (Slot A → M (Unit {0})) → Cells A → ℕ → M (Unit {0})
for_cells body cells zero = pure tt
for_cells body [] (suc n) = fail out_of_bounds
for_cells body (c ∷ cells) (suc n) = do body c; for_cells body cells n

-- A loop over the adjacent servers, which are `num_servers` in number.
unfoldable pub for_each : {A : Type 0} → (A → M (Unit {0})) → List A → M (Unit {0})
for_each body [] = pure tt
for_each body (x ∷ xs) = do body x; for_each body xs

-- `socket_send` to every adjacent server; that a send may fail is only printed.
abbrev pub tell : Request → Server → M (Unit {0})
tell rq srvr = send srvr.addr (to_server rq)

abbrev pub told : Request → Server → Datagram
told rq srvr = record { dest = srvr.addr; message = to_server rq }
