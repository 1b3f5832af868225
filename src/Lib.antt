-- ===== src/Lib.antt =====
-- Shell-ChatApp-Multi-Server: a chat program of clients and servers that exchange datagrams. A server
-- keeps users and channels in tables, sends what a user says to the members of the channel and to the
-- adjacent servers that subscribe to it, and these hand it on. A client decodes what is typed, sends
-- requests, and shows what comes. This library models both programs, from their command lines to the
-- bytes that they send and show, and states what they do, alone and together.
--
-- Parts, and the files that model them:
--   * duckchat.h: the limits (Duckchat) and the structures of requests and replies (Packets, with the
--     functions of helper_functions.c that fill them, and the error text that server.c builds).
--   * channels.c: users, channels and their members (Channels; Channels/SockAddr, /Members, /Remove).
--   * helper_functions.c: `neat_remove` on an array of pointers (Cells; Cells/Holds, /Search, /Shift);
--     the searches of the tables of channels and users (Directory); adjacent servers, their
--     subscriptions and timers, and the check for late ones (Adjacent; /Subs, /Removal, /Timers,
--     /Expiry); the ids of recent says (Recent; Recent/Seen).
--   * server.c, `main`: its local variables (Server/State), its start (Server/Start), the cases of its
--     switch (Server/Users: LOGIN, LOGOUT; Server/Say: SAY; Server/Rooms: JOIN, LEAVE, LIST, WHO;
--     Server/Peers: SERV_JOIN, SERV_LEAVE, SERV_SAY), and a whole round of its loop with the check for
--     late timers and the renewals (Server/Round). Server/Chat is the view that the theorems take of
--     a state: users, and rooms with their members. Server/Spec says on that view which requests of
--     clients, and says of servers, are permitted and what they do; /Serves and /Refinement take one
--     request, /Course many rounds.
--   * client.c, `send_thread`, and the functions of helper_functions.c that it calls: decoding a line and
--     taking a command apart (Client; Client/Lines), the requests (Client/Requests), the loop with its
--     table of joined channels (Client/Loop; Client/Waiting, /Commands, /Joined). Client and server
--     share Packets.
--   * duckchat.h as bytes: the structures as they are laid out, received and cast (Wire; Wire/Fields,
--     /Requests, /Padding), with `socket_recv` of connection_handler.c.
--   * client.c, `recv_thread`, and the functions of helper_functions.c that write to the terminal: what a
--     datagram shows (Client/Screen; /Shows, /Lists, /Users). `visible` is what can be seen of it.
--   * client.c, both threads: their flags, mutex and condition as a step relation (Client/Threads;
--     /Holders, /Exclusion, /Ending, /Hanging).
--   * client.c, `main`: its start and end (Client/Start; /Restores), with raw.c (Terminal; /Modes).
--   * connection_handler.c: the socket and its handler (Sockets; /Binding).
--   * helper_functions.c, `gen_rand` (Random); `create_sockaddr`, and the numbers of the command lines
--     (Addresses; /Ports).
--   * server.c, `main`, before its loop: the command line and the socket (Server/CommandLine;
--     /Launches).
--   * Network puts them together: the bytes that one program sends come to the next. /Says: from a line
--     at one client to the terminals of the members; /Passes: the same over two servers; /Asks: the lists
--     of channels and users; /Enters: a client that starts; /Flood: any number of servers that hand says
--     on to one another (/Loads, /Handling, /Dies, /Ends, /Once).
--   * Base has the lists, integers, texts and results that all share. Tests has a small state and the
--     theorems applied to it.
--
-- A handler is a step on `State`: it ends with a value and the new state, or with a `Fault` and the
-- state in which the failing call was made. Faults are reads through NULL or through what was never
-- assigned, reads and writes outside an array, reads of a freed user, and texts that do not fit the
-- block they are copied to. Where C would go on after one, the model stops.
--
-- The client's loop is a function on `Client` for each line that is typed. It ends with the new state or
-- with a fault alone. Its buffer is a list of bytes of any length, and the calls of `sendto` all succeed
-- or all fail in a line, as an argument tells.
--
-- Pointers: an array of pointers is a list of slots, each never assigned, NULL, or full. A channel is
-- held by one table alone, so a slot holds the channel itself, and a change is written back to its
-- slot. Users are shared between tables but never change after their making, so a slot holds a copy
-- with a number that `Heap` counts up; `free` records the number, and a read of a freed one is a fault.
--
-- Numbers: counters of arrays are integers that may fall below zero. They are not wrapped at 32 bits.
-- `atoi` is that of the C library of GNU, with a `long` of 64 bits and an `int` of 32.
-- Times are natural numbers of seconds, and a difference is an integer. A call's time is an argument:
-- a round has one for its check of the timers, one for the request and one for the renewals.
--
-- Fuel: the check for late timers counts up while the number of subscriptions, which it compares with,
-- goes down. It runs on fuel, which is the number of subscriptions at its start; to run out of it is a
-- fault of its own. A round of that loop raises the index, and lowers the count or keeps it, so that is
-- enough. All other loops are by recursion on the number of rounds that are left or on a list.
--
-- Taken from outside: the random numbers, the time, the datagrams that arrive, `inet_addr`,
-- `inet_ntoa`, and what the system's calls return are arguments. In the handlers `malloc` does not
-- fail, and `socket_send` adds to the list of what was sent. In State a text field is the C string that
-- is read at it, and a request is read from the buffer as a whole, to the end of each of its texts. An
-- `int` has 4 bytes and an `unsigned long` 8, the low byte first. A write that
-- `neat_remove` makes one past the end of an array is counted in `stray_writes` and taken to hit no
-- variable of the model. Printing of the server is left out, except where it reads outside an array.
--
-- Buffers: the sizes of the buffers into which datagrams are received (BUFSIZ, 8192 with glibc) are
-- arguments; no theorem asks for more than 1064 bytes.
--
-- Not modelled: the creation of the threads (client.c, `main`), the address that `accept` writes and the
-- table of function pointers (connection_handler.c), whose functions are called directly here, and what
-- the client echoes while a line is typed.
pub mod Base
pub mod Cells
pub mod Duckchat
pub mod Channels
pub mod Packets
pub mod Recent
pub mod Random
pub mod Adjacent
pub mod Directory
pub mod Wire
pub mod Network
pub mod Terminal
pub mod Sockets
pub mod Addresses
pub mod Server
pub mod Client
pub mod Tests
