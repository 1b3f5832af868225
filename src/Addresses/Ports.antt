-- ===== src/Addresses/Ports.antt =====
-- Ports: what a number that is written in decimal becomes.
use shell_chat_app_multi_ser.Base.{
  ℕ, zero, suc, ◌+◌, ◌-◌, ◌*◌, ◌/◌, ◌%◌, ◌≤◌, ◌<◌, ◌≡◌, refl, ap, ◌∙◌, true, ltb, ltb→lt, lt→ltb,
  ltb→ge, Bool-cases, inl, inr, [], ◌∷◌, ◌++◌, All, All-append, length, Text, codes, str_eq,
  str_eq-eq, pos, ok, strcpy-ok, arith, if◌then◌else◌,
}
use shell_chat_app_multi_ser.Duckchat.{Address}
use shell_chat_app_multi_ser.Addresses.{
  is_digit, digits, signed, skip_space, int_limit, long_limit, to_long, to_int, atoi, as_uint16,
  htons, ntohs, localhost, resolve, create_sockaddr,
}

-- The digits of a number, with fuel.
abbrev pub decimal_from : ℕ → ℕ → Text
decimal_from zero n = []
decimal_from (suc fuel) n =
    let rest = decimal_from fuel (n / 10) in
    if ltb n 10 then (48 + n) ∷ [] else rest ++ (48 + n % 10) ∷ []

-- The number as it is written in decimal.
abbrev pub decimal : ℕ → Text
decimal n = decimal_from (suc n) n

digits-append :
    (s : Text) (c n : ℕ)
    → All (λ d. is_digit d ≡ true) s
    → is_digit c ≡ true
    → digits (s ++ c ∷ []) n ≡ 10 * digits s n + (c - 48)
digits-append [] c n h hc = rw hc refl
digits-append (d ∷ s) c n h hc = rw h.0 (digits-append s c (10 * n + (d - 48)) h.1 hc)

digit : (n : ℕ) → n < 10 → is_digit (48 + n) ≡ true
digit n h = ground arith

decimal-digits : (fuel n : ℕ) → All (λ d. is_digit d ≡ true) (decimal_from fuel n)
decimal-digits zero n = tt
decimal-digits (suc fuel) n = elim (Bool-cases (ltb n 10)) [
  | inl small ↦ rw small (digit n (ltb→lt n 10 small), tt)
  | inr big ↦ rw big (
      All-append (λ d. is_digit d ≡ true) (decimal_from fuel (n / 10)) ((48 + n % 10) ∷ [])
        (decimal-digits fuel (n / 10)) (digit (n % 10) (omega arith), tt))
]

decimal-value : (fuel n : ℕ) → n < fuel → digits (decimal_from fuel n) 0 ≡ n
decimal-value zero n h = absurd (omega arith)
decimal-value (suc fuel) n h = elim (Bool-cases (ltb n 10)) [
  | inl small ↦ rw (small, digit n (ltb→lt n 10 small)) (omega arith)
  | inr big ↦
      let ten : 10 ≤ n = ltb→ge n 10 big in
      rw
        (
          big,
          digits-append (decimal_from fuel (n / 10)) (48 + n % 10) 0 (decimal-digits fuel (n / 10))
              (digit (n % 10) (omega arith)),
          decimal-value fuel (n / 10) (omega arith),
        )
        (omega arith)
]

signed-digits :
    (s : Text) → All (λ d. is_digit d ≡ true) s → signed (skip_space s) ≡ pos (digits s 0)
signed-digits [] h = refl
signed-digits (c ∷ s) h = ground (arith, h.0)

-- A number that an `int` can hold stays as it is.
to_int-to_long : (n : ℕ) → n < int_limit → to_int (to_long (pos n)) ≡ pos n
to_int-to_long n h =
    let small : ltb n long_limit ≡ true = lt→ltb n long_limit (omega arith) in
    let low : n % 4294967296 ≡ n = omega arith in rw (small, low, lt→ltb n int_limit h) refl

pub atoi-decimal : (n : ℕ) → n < int_limit → atoi (decimal n) ≡ pos n
unfolding atoi
atoi-decimal n h =
    ap (λ i. to_int (to_long i))
      (signed-digits (decimal n) (decimal-digits (suc n) n)
        ∙ ap pos (decimal-value (suc n) n (omega arith)))
    ∙ to_int-to_long n h

pub ntohs-htons : (port : ℕ) → port < 65536 → ntohs (htons port) ≡ port
ntohs-htons port h = omega arith

-- The text that is copied over `localhost` fits its block.
pub resolve-ok :
    (addr : Text)
    → resolve (suc (length addr)) addr
      ≡ ok (if str_eq addr localhost then codes "127.0.0.1" else addr)
resolve-ok addr = elim (Bool-cases (str_eq addr localhost)) [
  | inl same ↦
      let long : length addr ≡ 9 = ap length (str_eq-eq addr localhost same) in
      rw (same, long) (strcpy-ok 10 (codes "127.0.0.1") (omega arith))
  | inr other ↦ rw other refl
]

-- The address for two texts of the command line.
abbrev pub address_for : (Text → ℕ) → Text → Text → Address
address_for inet_addr addr port = record {
  sin_addr = inet_addr (if str_eq addr localhost then codes "127.0.0.1" else addr);
  sin_port = htons (as_uint16 (atoi port));
}

pub create_sockaddr-address_for :
    (inet_addr : Text → ℕ) (addr port : Text)
    → create_sockaddr inet_addr addr port ≡ ok (address_for inet_addr addr port)
unfolding create_sockaddr
create_sockaddr-address_for inet_addr addr port = rw (resolve-ok addr) refl

-- For every address text and every port number below 65536, written in decimal, `create_sockaddr`
-- copies within the block of the text, and makes an address whose port is that number in the order of
-- the network, and whose host is what `inet_addr` makes of the text, or of 127.0.0.1 for localhost.
pub create_sockaddr-port :
    (inet_addr : Text → ℕ) (addr : Text) (port : ℕ)
    → port < 65536
    → (a : Address) × (create_sockaddr inet_addr addr (decimal port) ≡ ok a)
      × (ntohs a.sin_port ≡ port)
      × (a.sin_addr ≡ inet_addr (if str_eq addr localhost then codes "127.0.0.1" else addr))
create_sockaddr-port inet_addr addr port h =
    let read : as_uint16 (atoi (decimal port)) ≡ port =
      ap as_uint16 (atoi-decimal port (omega arith)) ∙ omega arith in
    (
      address_for inet_addr addr (decimal port),
      create_sockaddr-address_for inet_addr addr (decimal port),
      ap (λ n. ntohs (htons n)) read ∙ ntohs-htons port h,
      refl,
    )
