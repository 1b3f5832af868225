-- ===== src/Sockets.antt =====
-- connection_handler.c: a datagram socket with its own address, behind a `Connection_Handler`. What the
-- calls of the system return, and `inet_addr` and `inet_ntoa`, are arguments. `socket_recv` is in Wire,
-- `socket_send` in Server/State.
pub mod Binding
use shell_chat_app_multi_ser.Base.{
  ℕ, ◌+◌, ◌-◌, Bool, true, false, ◌==◌, Option, none, some, List, [], ◌∷◌, ◌++◌, length, suc, ℤ,
  pos, negsuc, is_nonneg, Text, Result, ok, err, ◌>>=◌, uninit_read, null_deref, if◌then◌else◌,
}
use shell_chat_app_multi_ser.Duckchat.{Address}
use shell_chat_app_multi_ser.Addresses.{htons, ntohs, resolve}

-- A field is `none` until it is written, since the block comes from `malloc`.
pub record Self : Type 0 where
  pub port : Option ℕ
  pub addr : Option Address
  pub addrlen : Option ℕ
  pub socket_fd : Option ℤ

-- What `socket` and `bind` return, and the name that `getsockname` writes unless it fails.
pub record Calls : Type 0 where
  pub socket : ℤ
  pub bind : ℤ
  pub getsockname : Option Address

-- What is printed.
pub data Line : Type 0 where
  no_socket no_name : Line
  cannot_bind : ℤ → Line
  port_assigned : ℕ → Line

pub record Opened : Type 0 where
  pub ret : ℕ
  pub self : Self
  pub printed : List Line

-- `sizeof(struct sockaddr_in)`
abbrev sockaddr_size : ℕ
sockaddr_size = 16

-- `htonl(INADDR_ANY)`, or the address that is named.
abbrev pub own_addr : (Text → ℕ) → Option Text → Result ℕ
own_addr inet_addr none = ok 0
own_addr inet_addr (some addr) = do name ← resolve (suc (length addr)) addr; ok (inet_addr name)

-- From `getsockname` on.
abbrev pub name_socket : Option Address → Self → List Line → Opened
name_socket none s lines = record { ret = 0; self = s; printed = lines ++ no_name ∷ [] }
name_socket (some name) s lines = record {
  ret = 1;
  self = record s { addr = some name };
  printed = lines ++ port_assigned (ntohs name.sin_port) ∷ [];
}

-- From `bind` on.
abbrev pub bind_socket : Calls → Self → List Line → Opened
bind_socket calls s lines =
    if is_nonneg calls.bind
    then name_socket calls.getsockname s lines
    else record { ret = 0; self = s; printed = lines ++ cannot_bind calls.bind ∷ [] }

unfoldable pub init_socket : (Text → ℕ) → Calls → Option Text → ℕ → Self → Result Opened
init_socket inet_addr calls addr port s =
    let opened = record s { socket_fd = some calls.socket } in
    let lines : List Line = if is_nonneg calls.socket then [] else no_socket ∷ [] in
    if port == 0 then ok (record { ret = 0; self = opened; printed = lines }) else (do
      s_addr ← own_addr inet_addr addr
      ok (
          bind_socket calls
            (record opened {
              port = some port;
              addr = some (record { sin_addr = s_addr; sin_port = htons port });
              addrlen = some sockaddr_size;
            })
            lines))

-- `listen` fails or does not.
abbrev pub socket_listen : ℤ → ℤ
socket_listen called = if is_nonneg called then pos 0 else negsuc 0

-- The address that is connected to, whatever `connect` returns, which is what this returns.
abbrev pub socket_connect : (Text → ℕ) → ℤ → Text → ℕ → ℤ × Address × ℕ
socket_connect inet_addr called server_name port =
    (called, record { sin_addr = inet_addr server_name; sin_port = htons port }, sockaddr_size)

-- The descriptor that `accept` returns, printed if it fails.
abbrev pub socket_accept : ℤ → ℤ
socket_accept client_sock = client_sock

-- `FNDELAY` and `FNONBLOCK` are both `O_NONBLOCK`.
abbrev fndelay : ℕ
fndelay = 2048

abbrev fnonblock : ℕ
fnonblock = 2048

-- The flags of the descriptor after `fcntl(fd, F_SETFL, ...)`, whatever they were.
abbrev pub non_block : ℕ → ℕ
non_block flags = fndelay

abbrev pub block : ℕ → ℕ
block flags = fnonblock

abbrev read_field {ℓ} : {A : Type ℓ} → Option A → Result A
read_field none = err uninit_read
read_field (some a) = ok a

abbrev pub get_socketfd : Self → Result ℤ
get_socketfd s = read_field s.socket_fd

abbrev pub get_port : Self → Result ℕ
get_port s = do addr ← read_field s.addr; ok (ntohs addr.sin_port)

abbrev pub get_addr : (ℕ → Text) → Self → Result Text
get_addr inet_ntoa s = do addr ← read_field s.addr; ok (inet_ntoa addr.sin_addr)

-- A handler, if there is one, and the number of blocks that are allocated.
pub record Made : Type 0 where
  pub handler : Option Self
  pub blocks : ℕ

abbrev pub fresh : Self
fresh = record { port = none; addr = none; addrlen = none; socket_fd = none }

-- Whether each `malloc` gives a block is given.
unfoldable pub create_handler : Bool → Bool → ℕ → Made
create_handler false second blocks = record { handler = none; blocks = blocks }
create_handler true false blocks = record { handler = none; blocks = suc blocks - 1 }
create_handler true true blocks = record { handler = some fresh; blocks = suc (suc blocks) }

-- A handler that is used without a test.
abbrev pub handler_of : Option Self → Result Self
handler_of none = err null_deref
handler_of (some s) = ok s

-- Both blocks are freed.
abbrev pub destroy : Self → ℕ → ℕ
destroy s blocks = blocks - 1 - 1
