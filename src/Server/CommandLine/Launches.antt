-- ===== src/Server/CommandLine/Launches.antt =====
-- Launches: which command lines the server starts with, and with which neighbours.
use shell_chat_app_multi_ser.Base.{
  ℕ, suc, ◌+◌, ◌-◌, ◌*◌, ◌/◌, ◌%◌, ◌<◌, ◌≡◌, refl, ap, ap₂, sym, ◌∙◌, Bool, true, false, ◌==◌, some,
  List, [], ◌∷◌, ◌++◌, append_assoc, append-nil, length, length-append, length-map, get_elem?, set,
  map, replicate, ltb, ge→ltb, Text, ok, arith, All, if◌then◌else◌,
}
use shell_chat_app_multi_ser.Duckchat.{Address}
use shell_chat_app_multi_ser.Cells.{Cells, full, uninit}
use shell_chat_app_multi_ser.Cells.Holds.{write-ok}
use shell_chat_app_multi_ser.Channels.{Channel}
use shell_chat_app_multi_ser.Adjacent.{adjacent}
use shell_chat_app_multi_ser.Adjacent.Subs.{IsSound}
use shell_chat_app_multi_ser.Addresses.{atoi, as_uint16, arg}
use shell_chat_app_multi_ser.Addresses.Ports.{address_for, create_sockaddr-address_for}
use shell_chat_app_multi_ser.Sockets.{Calls, fresh, create_handler}
use shell_chat_app_multi_ser.Sockets.Binding.{is_usable, init_socket-returns}
use shell_chat_app_multi_ser.Server.State.{State}
use shell_chat_app_multi_ser.Server.Chat.{Represents}
use shell_chat_app_multi_ser.Server.Start.{start-Represents, start-adjacent, common_room}
use shell_chat_app_multi_ser.Server.CommandLine.{
  Launch, stopped, running, usage, mismatch, no_socket, set_up, addresses, launch,
}

-- Without an argument the usage is printed, and with an odd number of them that address and port do not
-- match; the server then stops, and looks at no argument.
pub launch_refuses :
    (inet_addr : Text → ℕ) (calls : Calls) (now : ℕ) (program : Text) (args : List Text)
    → (args ≡ [] → launch inet_addr calls now (program ∷ args) ≡ ok (stopped usage))
      × (length args % 2 ≡ 1 → launch inet_addr calls now (program ∷ args) ≡ ok (stopped mismatch))
unfolding launch
launch_refuses inet_addr calls now program args = (
  λ e. rw e refl,
  λ odd.
      let many : ltb (length (program ∷ args)) 2 ≡ false = ge→ltb _ _ (omega arith) in
      let test : ((length (program ∷ args) - 1) % 2 == 0) ≡ false = ground (arith, odd) in
      rw (many, test) refl,
)

-- A neighbour in the command line: its host and its port.
pub record Peer : Type 0 where
  pub host : Text
  pub port : Text

abbrev pub flat : List Peer → List Text
flat [] = []
flat (p ∷ peers) = p.host ∷ p.port ∷ flat peers

abbrev pub peer_address : (Text → ℕ) → Peer → Address
peer_address inet_addr p = address_for inet_addr p.host p.port

get_elem?-there :
    (front : List Text) (x : Text) (rest : List Text)
    → get_elem? (front ++ x ∷ rest) (length front) ≡ some x
get_elem?-there [] x rest = refl
get_elem?-there (y ∷ front) x rest = get_elem?-there front x rest

arg-there :
    (front : List Text) (x : Text) (rest : List Text)
    → arg (front ++ x ∷ rest) (length front) ≡ ok x
arg-there front x rest = rw (arg, get_elem?-there front x rest) refl

arg-next :
    (front : List Text) (x y : Text) (rest : List Text)
    → arg (front ++ x ∷ y ∷ rest) (length front + 1) ≡ ok y
arg-next front x y rest =
    ap₂ arg (sym (append_assoc front (x ∷ []) (y ∷ rest))) (sym (length-append front (x ∷ [])))
    ∙ arg-there (front ++ x ∷ []) y rest

set-next :
    (addrs : List Address) (a : Address) (rest : Cells Address)
    → set (map full addrs ++ uninit ∷ rest) (length addrs) (full a)
      ≡ map full (addrs ++ a ∷ []) ++ rest
set-next [] a rest = refl
set-next (b ∷ addrs) a rest = ap (◌∷◌ (full b)) (set-next addrs a rest)

-- The loop: the entries before are set, and as many cells are left as neighbours.
set_up-fills :
    (inet_addr : Text → ℕ) (front : List Text) (peers : List Peer) (addrs : List Address)
    → length front ≡ 3 + 2 * length addrs
    → set_up inet_addr
        (length peers)
        (front ++ flat peers)
        (length front)
        (map full addrs ++ replicate (length peers) uninit)
      ≡ ok (map full (addrs ++ map (peer_address inet_addr) peers))
unfolding set_up
set_up-fills inet_addr front [] addrs h =
    ap ok (append-nil (map full addrs) ∙ ap (map full) (sym (append-nil addrs)))
set_up-fills inet_addr front (p ∷ peers) addrs h =
    let a = peer_address inet_addr p in
    let cells : Cells Address = map full addrs ++ replicate (suc (length peers)) uninit in
    let place : (length front - 3) / 2 ≡ length addrs = omega (arith, h) in
    let small : length addrs < length cells = omega (
      arith,
      length-append (map full addrs) (replicate (suc (length peers)) uninit),
      length-map addrs full,
    ) in
    let pair = p.host ∷ p.port ∷ [] in
    let longer : length (front ++ pair) ≡ length front + 2 = length-append front pair in
    let grown : length (front ++ pair) ≡ 3 + 2 * length (addrs ++ a ∷ []) =
      omega (arith, h, longer, length-append addrs (a ∷ [])) in
    let later = set_up-fills inet_addr (front ++ pair) peers (addrs ++ a ∷ []) grown in
    rw
      (
        arg-there front p.host (p.port ∷ flat peers),
        arg-next front p.host p.port (flat peers),
        create_sockaddr-address_for inet_addr p.host p.port,
        place,
        write-ok cells (length addrs) (full a) small,
        set-next addrs a (replicate (length peers) uninit),
        sym (append_assoc front pair (flat peers)),
        sym longer,
        later,
        append_assoc addrs (a ∷ []) (map (peer_address inet_addr) peers),
      )
      refl

addresses-full : (addrs : List Address) → addresses (map full addrs) ≡ ok addrs
addresses-full [] = refl
addresses-full (a ∷ addrs) = rw (addresses-full addrs) refl

length-flat : (peers : List Peer) → length (flat peers) ≡ 2 * length peers
length-flat [] = refl
length-flat (p ∷ peers) = omega (arith, length-flat peers)

addr-adjacent : (addrs : List Address) → map (λ v. v.addr) (map adjacent addrs) ≡ addrs
unfolding adjacent
addr-adjacent [] = refl
addr-adjacent (a ∷ addrs) = ap (◌∷◌ a) (addr-adjacent addrs)

by_ret :
    (b : Bool) (n : ℕ) (x y : Launch)
    → n ≡ (if b then 1 else 0)
    → (if n == 0 then x else y) ≡ (if b then y else x)
by_ret true n x y e = rw e refl
by_ret false n x y e = rw e refl

-- With an address, a port and any number of further pairs, whatever the texts, which `atoi` reads as in
-- the C library of GNU, and whatever the calls of the system return, the server ends its start without
-- a fault: it stops if `init_socket` does not succeed, that is if the port is 0 or `bind` or `getsockname` fails. Otherwise it runs, with one
-- neighbour for every pair, in their order, at the address that `create_sockaddr` makes of it;
-- nobody is logged in, there is one room, `Common`, without members, and nothing was sent.
pub launch-runs :
    (inet_addr : Text → ℕ) (calls : Calls) (now : ℕ) (program host number : Text)
    (peers : List Peer)
    → (s : State) × (c : Channel) × (launch inet_addr calls now
          (program ∷ host ∷ number ∷ flat peers)
        ≡ ok (if is_usable calls (as_uint16 (atoi number)) then running s else stopped no_socket))
      × (map (λ v. v.addr) s.srvrs ≡ map (peer_address inet_addr) peers)
      × Represents s [] (c ∷ []) (common_room now ∷ [])
      × All IsSound s.srvrs
      × (s.sent ≡ [])
unfolding launch create_handler
launch-runs inet_addr calls now program host number peers =
    let argv = program ∷ host ∷ number ∷ flat peers in
    let n = length peers in
    let size : length argv ≡ 3 + 2 * n = omega (arith, length-flat peers) in
    let many : ltb (length argv) 2 ≡ false = ge→ltb _ _ (omega (arith, size)) in
    let odd : ((length argv - 1) % 2 == 0) ≡ true = ground (arith, size) in
    let places : (length argv - 3) / 2 ≡ n = omega (arith, size) in
    let rounds : (length argv - 2) / 2 ≡ n = omega (arith, size) in
    let addrs = map (peer_address inet_addr) peers in
    let (s, c, started, tables, sound, quiet) = start-Represents now addrs in
    let (o, opened, ret, _) =
      init_socket-returns inet_addr calls (some host) (as_uint16 (atoi number)) fresh in
    (
      s,
      c,
      rw
          (
            many,
            odd,
            places,
            rounds,
            set_up-fills inet_addr (program ∷ host ∷ number ∷ []) peers [] refl,
            addresses-full addrs,
            started,
            opened,
          )
          (ap ok (
            by_ret (is_usable calls (as_uint16 (atoi number))) o.ret (stopped no_socket) (running s)
              ret)),
      ap (map (λ v. v.addr)) (start-adjacent now addrs s started) ∙ addr-adjacent addrs,
      tables,
      sound,
      quiet,
    )
