-- ===== src/Sockets/Binding.antt =====
-- Binding: what `init_socket` returns and leaves.
use shell_chat_app_multi_ser.Base.{
  ℕ, ◌≤◌, ◌<◌, ◌≡◌, refl, ap, ◌∙◌, Bool, true, false, not, ◌&&◌, ◌==◌, Option, none, some, List, [],
  ◌∷◌, ◌++◌, Text, codes, str_eq, is_nonneg, ok, arith, Bool-cases, Option-cases, inl, inr,
  if◌then◌else◌,
}
use shell_chat_app_multi_ser.Duckchat.{Address}
use shell_chat_app_multi_ser.Addresses.{htons, ntohs, localhost}
use shell_chat_app_multi_ser.Addresses.Ports.{resolve-ok, ntohs-htons}
use shell_chat_app_multi_ser.Sockets.{
  Self, Calls, Opened, init_socket, get_socketfd, get_port, create_handler, destroy, fresh, Line,
  port_assigned, no_socket, own_addr, bind_socket,
}

abbrev pub is_named : Option Address → Bool
is_named none = false
is_named (some name) = true

-- `bind` and `getsockname` succeed, for a port that is not 0.
abbrev pub is_usable : Calls → ℕ → Bool
is_usable calls port = not (port == 0) && (is_nonneg calls.bind && is_named calls.getsockname)

own_addr-ok :
    (inet_addr : Text → ℕ) (addr : Option Text) → (n : ℕ) × (own_addr inet_addr addr ≡ ok n)
own_addr-ok inet_addr none = (0, refl)
own_addr-ok inet_addr (some addr) = (
  inet_addr (if str_eq addr localhost then codes "127.0.0.1" else addr),
  rw (resolve-ok addr) refl,
)

bind_socket-returns :
    (calls : Calls) (s : Self) (lines : List Line)
    → ((bind_socket calls s lines).ret
        ≡ (if is_nonneg calls.bind && is_named calls.getsockname then 1 else 0))
      × (get_socketfd (bind_socket calls s lines).self ≡ get_socketfd s)
bind_socket-returns calls s lines = elim (Bool-cases (is_nonneg calls.bind)) [
  | inl bound ↦ elim (Option-cases calls.getsockname) [
    | inl e ↦ (rw (bound, e) refl, rw (bound, e) refl)
    | inr (name, e) ↦ (rw (bound, e) refl, rw (bound, e) refl)
  ]
  | inr e ↦ (rw e refl, rw e refl)
]

-- Whatever the calls of the system return, `init_socket` ends without a fault, and returns 1 just if
-- the port is not 0 and `bind` and `getsockname` succeed, and 0 otherwise: what `socket` returns does
-- not matter for that, and is kept as the descriptor in every case.
pub init_socket-returns :
    (inet_addr : Text → ℕ) (calls : Calls) (addr : Option Text) (port : ℕ) (s : Self)
    → (o : Opened) × (init_socket inet_addr calls addr port s ≡ ok o)
      × (o.ret ≡ (if is_usable calls port then 1 else 0))
      × (get_socketfd o.self ≡ ok calls.socket)
unfolding init_socket
init_socket-returns inet_addr calls addr port s = elim (Bool-cases (port == 0)) [
  | inl none_given ↦ (
    record {
      ret = 0;
      self = record s { socket_fd = some calls.socket };
      printed = if is_nonneg calls.socket then [] else no_socket ∷ [];
    },
    rw none_given refl,
    rw none_given refl,
    refl,
  )
  | inr given ↦
      let (s_addr, known) = own_addr-ok inet_addr addr in
      let bound =
        bind_socket calls
          (record {
            port = some port;
            addr = some (record { sin_addr = s_addr; sin_port = htons port });
            addrlen = some 16;
            socket_fd = some calls.socket;
          })
          (if is_nonneg calls.socket then [] else no_socket ∷ []) in
      let (ret, fd) = bind_socket-returns calls _ _ in
      (bound, rw (given, known) refl, ret ∙ rw given refl, fd)
]

-- Let `bind` and `getsockname` succeed, and let the latter name the port that was bound. Then
-- `init_socket`, for a port between 1 and 65535, leaves a handler whose `get_port` is the port that
-- was asked for, and prints it last.
pub init_socket-get_port :
    (inet_addr : Text → ℕ) (calls : Calls) (addr : Option Text) (port : ℕ) (s : Self)
    (name : Address)
    → 1 ≤ port
    → port < 65536
    → is_nonneg calls.bind ≡ true
    → calls.getsockname ≡ some name
    → name.sin_port ≡ htons port
    → (o : Opened) × (before : List Line) × (init_socket inet_addr calls addr port s ≡ ok o)
      × (o.ret ≡ 1)
      × (get_port o.self ≡ ok port)
      × (o.printed ≡ before ++ port_assigned port ∷ [])
unfolding init_socket
init_socket-get_port inet_addr calls addr port s name some_port below bound named same =
    let (s_addr, known) = own_addr-ok inet_addr addr in
    let given : (port == 0) ≡ false = ground arith in
    let back : ntohs name.sin_port ≡ port = ap ntohs same ∙ ntohs-htons port below in
    (
      record {
        ret = 1;
        self = record {
          port = some port;
          addr = some name;
          addrlen = some 16;
          socket_fd = some calls.socket;
        };
        printed =
            (if is_nonneg calls.socket then [] else no_socket ∷ [])
            ++ port_assigned (ntohs name.sin_port) ∷ [];
      },
      if is_nonneg calls.socket then [] else no_socket ∷ [],
      rw (given, known, bound, named) refl,
      refl,
      ap ok back,
      ap (λ n. (if is_nonneg calls.socket then [] else no_socket ∷ []) ++ port_assigned n ∷ [])
          back,
    )

-- However `malloc` answers, a handler that `create_handler` makes takes two blocks, which `destroy`
-- gives back, and without a handler no block stays allocated.
pub create_handler-destroy :
    (first second : Bool) (blocks : ℕ)
    → let made = create_handler first second blocks in
      (made.handler ≡ (if first && second then some fresh else none))
      × ((s : Self) → made.handler ≡ some s → destroy s made.blocks ≡ blocks)
      × (made.handler ≡ none → made.blocks ≡ blocks)
unfolding create_handler
create_handler-destroy false second blocks = (refl, λ s e. cc, λ e. refl)
create_handler-destroy true false blocks = (refl, λ s e. cc, λ e. omega arith)
create_handler-destroy true true blocks = (refl, λ s e. omega arith, λ e. cc)
