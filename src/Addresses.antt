-- ===== src/Addresses.antt =====
-- Addresses from texts: `create_sockaddr` of helper_functions.c, and what it, connection_handler.c and
-- the programs' `main` use of the C library for them. `inet_addr` is an argument.
pub mod Ports
use shell_chat_app_multi_ser.Base.{
  ℕ, ◌+◌, ◌-◌, ◌*◌, ◌/◌, ◌%◌, Bool, ◌&&◌, ◌||◌, ◌==◌, ltb, leb, List, [], ◌∷◌, length, suc, Text,
  codes, str_eq, ℤ, pos, negsuc, Result, ok, err, null_deref, out_of_bounds, Option, none, some,
  get_elem?, ◌>>=◌, strcpy, if◌then◌else◌,
}
use shell_chat_app_multi_ser.Duckchat.{Address}

-- `isspace`
abbrev pub is_space : ℕ → Bool
is_space c = (leb 9 c && leb c 13) || (c == 32)

-- `isdigit`
abbrev pub is_digit : ℕ → Bool
is_digit c = leb 48 c && leb c 57

-- The number that the digits at the start add to `n`.
abbrev pub digits : Text → ℕ → ℕ
digits [] n = n
digits (c ∷ s) n = let rest = digits s (10 * n + (c - 48)) in if is_digit c then rest else n

abbrev pub negated : ℕ → ℤ
negated n = if n == 0 then pos 0 else negsuc (n - 1)

-- `'-'` and `'+'` are 45 and 43.
abbrev pub signed : Text → ℤ
signed [] = pos 0
signed (c ∷ s) =
    if c == 45
    then negated (digits s 0)
    else if c == 43
    then pos (digits s 0)
    else pos (digits (c ∷ s) 0)

abbrev pub skip_space : Text → Text
skip_space [] = []
skip_space (c ∷ s) = let rest = skip_space s in if is_space c then rest else c ∷ s

abbrev pub int_limit : ℕ
int_limit = 2147483648

abbrev pub long_limit : ℕ
long_limit = 9223372036854775808

-- What `strtol` makes of a number that no `long` can hold: the largest or the smallest `long`.
abbrev pub to_long : ℤ → ℤ
to_long (pos n) = pos (if ltb n long_limit then n else long_limit - 1)
to_long (negsuc n) = negsuc (if ltb n long_limit then n else long_limit - 1)

-- `(int)n`, which keeps the low 32 bits.
abbrev pub to_int : ℤ → ℤ
to_int (pos n) =
    let low = n % 4294967296 in if ltb low int_limit then pos low else negsuc (4294967295 - low)
to_int (negsuc n) =
    let low = n % 4294967296 in if ltb low int_limit then negsuc low else pos (4294967295 - low)

-- `atoi`, which is `(int)strtol(s, NULL, 10)` in the C library of GNU. The standard of C says nothing
-- of numbers that no `int` can hold.
unfoldable pub atoi : Text → ℤ
atoi s = to_int (to_long (signed (skip_space s)))

-- `(uint16_t)n`
abbrev pub as_uint16 : ℤ → ℕ
as_uint16 (pos n) = n % 65536
as_uint16 (negsuc n) = 65535 - n % 65536

-- `htons` and `ntohs`, on a machine with the low byte first.
abbrev pub htons : ℕ → ℕ
htons port = port % 256 * 256 + port / 256 % 256

abbrev pub ntohs : ℕ → ℕ
ntohs = htons

abbrev pub localhost : Text
localhost = codes "localhost"

-- The test for `localhost`, and the text that is copied over it: `room` is the size of its block.
abbrev pub resolve : ℕ → Text → Result Text
resolve room addr = if str_eq addr localhost then strcpy room (codes "127.0.0.1") else ok addr

-- The texts are arguments of the program, each in a block of its length with the terminator.
unfoldable pub create_sockaddr : (Text → ℕ) → Text → Text → Result Address
create_sockaddr inet_addr addr port = do
  let sin_port = htons (as_uint16 (atoi port))
  name ← resolve (suc (length addr)) addr
  ok (record { sin_addr = inet_addr name; sin_port = sin_port })

-- `argv[i]`, read through: `argv[argc]` is NULL.
abbrev pub arg : List Text → ℕ → Result Text
arg argv i = elim (get_elem? argv i) [
  | some s ↦ ok s
  | none ↦ if i == length argv then err null_deref else err out_of_bounds
]
