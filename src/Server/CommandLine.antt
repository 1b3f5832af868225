-- ===== src/Server/CommandLine.antt =====
-- The server's `main` up to its loop: the tests of the command line, the adjacent servers that it names,
-- and the socket (server.c).
pub mod Launches
use shell_chat_app_multi_ser.Base.{
  ℕ, zero, suc, ◌+◌, ◌-◌, ◌/◌, ◌%◌, Bool, true, not, ◌==◌, ltb, Option, some, List, [], ◌∷◌, length,
  replicate, pos, Text, Result, ok, ◌>>=◌, if◌then◌else◌,
}
use shell_chat_app_multi_ser.Duckchat.{Address}
use shell_chat_app_multi_ser.Cells.{Cells, uninit, full, deref, write}
use shell_chat_app_multi_ser.Addresses.{atoi, as_uint16, create_sockaddr, arg}
use shell_chat_app_multi_ser.Sockets.{
  Self, Calls, Opened, Made, init_socket, create_handler, handler_of,
}
use shell_chat_app_multi_ser.Server.State.{State}
use shell_chat_app_multi_ser.Server.Start.{start}

-- `exit(EXIT_FAILURE)`, by what is printed before; the last is after `init_socket` returns 0.
pub data Stop : Type 0 where
  usage mismatch no_socket : Stop

pub data Launch : Type 0 where
  stopped : Stop → Launch
  running : State → Launch

-- `for (int i = 3; i < argc; i += 2)` from `i` on, with the rounds that are left: the address of the
-- adjacent server with index `(i - 3) / 2`. What else is set there is `adjacent`.
unfoldable pub set_up : (Text → ℕ) → ℕ → List Text → ℕ → Cells Address → Result (Cells Address)
set_up inet_addr zero argv i cells = ok cells
set_up inet_addr (suc n) argv i cells = do
  host ← arg argv i
  port ← arg argv (i + 1)
  addr ← create_sockaddr inet_addr host port
  cells' ← write cells (pos ((i - 3) / 2)) (full addr)
  set_up inet_addr n argv (i + 2) cells'

-- The addresses, all of which are read later.
abbrev pub addresses : Cells Address → Result (List Address)
addresses [] = ok []
addresses (c ∷ cells) = do addr ← deref c; addrs ← addresses cells; ok (addr ∷ addrs)

-- `malloc` gives both blocks of the handler. `now` is the time at which channel 0 is made.
unfoldable pub launch : (Text → ℕ) → Calls → ℕ → List Text → Result Launch
launch inet_addr calls now argv =
    let argc = length argv in
    if ltb argc 2
    then ok (stopped usage)
    else if not ((argc - 1) % 2 == 0)
    then ok (stopped mismatch)
    else (do
      number ← arg argv 2
      let my_port = as_uint16 (atoi number)
      let num_servers = (argc - 3) / 2
      cells ← set_up inet_addr ((argc - 2) / 2) argv 3 (replicate num_servers uninit)
      addrs ← addresses cells
      ch ← handler_of (create_handler true true 0).handler
      s ← start now addrs
      host ← arg argv 1
      opened ← init_socket inet_addr calls (some host) my_port ch
      ok (if opened.ret == 0 then stopped no_socket else running s))
