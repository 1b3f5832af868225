-- ===== src/Client/Start.antt =====
-- The start and the end of the client's `main` (client.c): the terminal, the arguments, and the two
-- requests that are sent before the threads run. What the structures and blocks held before is given.
pub mod Restores
use shell_chat_app_multi_ser.Base.{
  ℕ, Bool, Option, none, some, List, [], ◌∷◌, ◌++◌, length, ltb, Text, Result, ok, ◌>>=◌, strcpy,
  if◌then◌else◌,
}
use shell_chat_app_multi_ser.Duckchat.{Address, username_max, channel_max, common}
use shell_chat_app_multi_ser.Wire.{Bytes, int_bytes, field}
use shell_chat_app_multi_ser.Addresses.{atoi, as_uint16, htons, resolve, arg}
use shell_chat_app_multi_ser.Sockets.{
  Self, Calls, Opened, Made, init_socket, create_handler, handler_of,
}
use shell_chat_app_multi_ser.Terminal.{Tty, raw_mode, cooked_mode}

-- What the system answers: `inet_addr`, the socket's calls, both blocks of the handler, `tcgetattr`,
-- `tcsetattr`; and what is in `req_lg.req_username` and `req_jn.req_channel` before they are written.
pub record Surroundings : Type 0 where
  pub inet_addr : Text → ℕ
  pub calls : Calls
  pub first : Bool
  pub second : Bool
  pub get : Bool
  pub set : Bool
  pub old_username : Bytes
  pub old_channel : Bytes

-- When the threads start: the handler with the number of blocks, and the datagrams that were sent to
-- the server.
pub record Connection : Type 0 where
  pub tty : Tty
  pub handler : Self
  pub blocks : ℕ
  pub server_addr : Address
  pub datagrams : List Bytes

pub data Started : Type 0 where
  exit_failure : Tty → Started
  connected : Connection → Started

-- From the test of `argc` on; blocks of `bufsiz` bytes.
unfoldable pub connect : Surroundings → ℕ → List Text → Tty → Result Connection
connect around bufsiz argv tty = do
  host ← arg argv 1
  server ← strcpy bufsiz host
  number ← arg argv 2
  let port = as_uint16 (atoi number)
  user ← arg argv 3
  usrname ← strcpy username_max user
  let made = create_handler around.first around.second 0
  c ← handler_of made.handler
  opened ← init_socket around.inet_addr around.calls none 0 c
  server' ← resolve bufsiz server
  req_username ← strcpy username_max usrname
  req_channel ← strcpy channel_max common
  ok (record {
    tty = tty;
    handler = opened.self;
    blocks = made.blocks;
    server_addr = record { sin_addr = around.inet_addr server'; sin_port = htons port };
    datagrams =
        (int_bytes 0 ++ field 32 req_username around.old_username)
        ∷ (int_bytes 2 ++ field 32 req_channel around.old_channel)
        ∷ [];
  })

unfoldable pub start_main : Surroundings → ℕ → List Text → Tty → Result Started
start_main around bufsiz argv tty =
    let (tty', ret) = raw_mode around.get around.set tty in
    if ltb (length argv) 4
    then ok (exit_failure tty')
    else (do connection ← connect around bufsiz argv tty'; ok (connected connection))

-- After both threads have ended; `set` is the answer of `tcsetattr`.
abbrev pub end_main : Bool → Connection → Tty
end_main set connection = cooked_mode set connection.tty
