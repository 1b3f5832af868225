-- ===== src/Client/Start/Restores.antt =====
-- What the client leaves of the terminal.
use shell_chat_app_multi_ser.Base.{
  ℕ, ◌<◌, ◌≡◌, refl, ap, ◌∙◌, true, false, some, List, [], ◌∷◌, ◌++◌, length, ltb, lt→ltb, ge→ltb,
  codes, str_eq, str_eq-eq, Text, ok, strcpy-ok, arith, Bool-cases, inl, inr, if◌then◌else◌,
}
use shell_chat_app_multi_ser.Duckchat.{username_max, common}
use shell_chat_app_multi_ser.Wire.{int_bytes, field}
use shell_chat_app_multi_ser.Addresses.{atoi, as_uint16, htons, ntohs, localhost, resolve}
use shell_chat_app_multi_ser.Addresses.Ports.{decimal, atoi-decimal, ntohs-htons}
use shell_chat_app_multi_ser.Sockets.{init_socket, create_handler, destroy, fresh}
use shell_chat_app_multi_ser.Terminal.{Tty, raw, raw_mode, cooked_mode}
use shell_chat_app_multi_ser.Client.Start.{
  Surroundings, Connection, exit_failure, connected, connect, start_main, end_main,
}

-- With fewer than three arguments the client ends with a failure, and leaves the terminal in raw mode,
-- if `tcgetattr` and `tcsetattr` succeed.
pub start_main_stays_raw :
    (around : Surroundings) (bufsiz : ℕ) (argv : List Text) (tty : Tty)
    → around.get ≡ true
    → around.set ≡ true
    → length argv < 4
    → (tty' : Tty) × (start_main around bufsiz argv tty ≡ ok (exit_failure tty'))
      × (tty'.term ≡ raw tty.term)
unfolding start_main raw_mode
start_main_stays_raw around bufsiz argv tty got did few =
    (record { term = raw tty.term; oldterm = tty.term }, rw (got, did, lt→ltb _ _ few) refl, refl)

-- The text copied over `localhost` fits.
resolve_in :
    (room : ℕ) (addr : Text)
    → length addr < room
    → resolve room addr ≡ ok (if str_eq addr localhost then codes "127.0.0.1" else addr)
resolve_in room addr h = elim (Bool-cases (str_eq addr localhost)) [
  | inl same ↦
      let long : length addr ≡ 9 = ap length (str_eq-eq addr localhost same) in
      rw same (strcpy-ok room (codes "127.0.0.1") (omega (arith, long)))
  | inr other ↦ rw other refl
]

-- The client is called with a host shorter than its block of `bufsiz` bytes, a port below 65536 in
-- decimal and a name that fits its block, while
-- `malloc`, `tcgetattr` and `tcsetattr` succeed; more arguments do not matter. Then its threads start
-- with the terminal in raw mode and the server's address as it was given, a login with the name and a
-- join of `Common` are sent, and at the end the terminal has the settings that it had at the start, and
-- both blocks of the handler are freed.
pub start_main-connects :
    (around : Surroundings) (bufsiz : ℕ) (program host : Text) (port : ℕ) (name : Text)
    (more : List Text) (tty : Tty)
    → around.first ≡ true
    → around.second ≡ true
    → around.get ≡ true
    → around.set ≡ true
    → length host < bufsiz
    → port < 65536
    → length name < username_max
    → (c : Connection) × (start_main around bufsiz (program ∷ host ∷ decimal port ∷ name ∷ more) tty
        ≡ ok (connected c))
      × (c.tty.term ≡ raw tty.term)
      × (c.server_addr.sin_addr
          ≡ around.inet_addr (if str_eq host localhost then codes "127.0.0.1" else host))
      × (ntohs c.server_addr.sin_port ≡ port)
      × (c.datagrams
          ≡ (int_bytes 0 ++ field 32 name around.old_username)
            ∷ (int_bytes 2 ++ field 32 common around.old_channel)
            ∷ [])
      × ((end_main true c).term ≡ tty.term)
      × (destroy c.handler c.blocks ≡ 0)
unfolding start_main raw_mode cooked_mode connect create_handler init_socket
start_main-connects around bufsiz program host port name more tty first second got did short below
      fits =
    let read : as_uint16 (atoi (decimal port)) ≡ port =
      ap as_uint16 (atoi-decimal port (omega arith)) ∙ omega arith in
    let four : ltb (length (program ∷ host ∷ decimal port ∷ name ∷ more)) 4 ≡ false =
      ge→ltb _ _ (omega arith) in
    (
      record {
        tty = record { term = raw tty.term; oldterm = tty.term };
        handler = record fresh { socket_fd = some around.calls.socket };
        blocks = 2;
        server_addr = record {
          sin_addr = around.inet_addr (if str_eq host localhost then codes "127.0.0.1" else host);
          sin_port = htons (as_uint16 (atoi (decimal port)));
        };
        datagrams =
            (int_bytes 0 ++ field 32 name around.old_username)
            ∷ (int_bytes 2 ++ field 32 common around.old_channel)
            ∷ [];
      },
      rw
          (
            got,
            did,
            four,
            strcpy-ok bufsiz host short,
            strcpy-ok username_max name fits,
            first,
            second,
            resolve_in bufsiz host short,
            strcpy-ok 32 common (omega arith),
            strcpy-ok username_max name fits,
          )
          refl,
      refl,
      refl,
      ap (λ n. ntohs (htons n)) read ∙ ntohs-htons port below,
      refl,
      refl,
      refl,
    )
