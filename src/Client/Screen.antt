-- ===== src/Client/Screen.antt =====
-- What the client shows: client.c, `recv_thread`, and the functions of helper_functions.c that write to
-- the terminal. A datagram is received into a buffer of `size` bytes that was cleared.
pub mod Shows
pub mod Lists
pub mod Users
use shell_chat_app_multi_ser.Base.{
  ℕ, zero, suc, ◌+◌, ◌*◌, ◌==◌, List, [], ◌∷◌, ◌++◌, length, take, drop, replicate, leb, ltb, codes,
  Text, Result, ok, err, ◌>>=◌, out_of_bounds, if◌then◌else◌,
}
use shell_chat_app_multi_ser.Duckchat.{username_max, channel_max, say_max}
use shell_chat_app_multi_ser.Wire.{Bytes, zeros, int_at, socket_recv}

-- `write(fd, "...", n)`, with the zero byte that ends the literal.
abbrev pub literal : ℕ → Text → Bytes
literal n s = take n (s ++ 0 ∷ [])

-- `write(fd, p, n)` for a place in the buffer.
abbrev pub bytes_at : Bytes → ℕ → ℕ → Result Bytes
bytes_at buffer k n =
    if leb (k + n) (length buffer) then ok (take n (drop k buffer)) else err out_of_bounds

-- The character `\b`.
abbrev pub backspace : ℕ
backspace = 8

unfoldable pub clear_stdout : ℕ → Bytes
clear_stdout clear_chars = replicate clear_chars backspace

-- The places of the three texts are given.
unfoldable pub say_text_output : Bytes → ℕ → ℕ → ℕ → Result Bytes
say_text_output buffer channel username text = do
  c ← bytes_at buffer channel channel_max
  u ← bytes_at buffer username username_max
  t ← bytes_at buffer text say_max
  ok (
      literal 1 (codes "[")
      ++ (c
          ++ (literal 1 (codes "]")
              ++ (literal 1 (codes "[") ++ (u ++ (literal 3 (codes "]: ") ++ t))))))

-- The rounds of a loop up to a count that is an `int`.
abbrev pub int_rounds : ℕ → ℕ
int_rounds n = if ltb n 2147483648 then n else 0

-- A loop over the names at the end of a structure, from the one at `k` on.
unfoldable pub print_names : Bytes → ℕ → ℕ → Result Bytes
print_names buffer k zero = ok []
print_names buffer k (suc n) = do
  name ← bytes_at buffer k 32
  rest ← print_names buffer (k + 32) n
  ok (literal 2 (codes "\n\t") ++ (name ++ rest))

unfoldable pub print_channel_list : Bytes → Result Bytes
print_channel_list buffer = do
  n ← int_at buffer 4
  names ← print_names buffer 8 (int_rounds n)
  ok (literal 19 (codes "Existing Channels:") ++ names)

unfoldable pub print_user_list : Bytes → Result Bytes
print_user_list buffer = do
  channel ← bytes_at buffer 8 channel_max
  n ← int_at buffer 4
  names ← print_names buffer 40 (int_rounds n)
  ok (literal 14 (codes "All users in ") ++ (channel ++ names))

-- What is written to standard output and to standard error.
pub record Screen : Type 0 where
  pub out : Bytes
  pub errors : Bytes

-- The text for a `txt_type`.
abbrev pub show_text : Bytes → ℕ → Result Screen
show_text buffer type =
    if type == 0
    then (do out ← say_text_output buffer 4 36 68; ok (record { out = out; errors = [] }))
    else if type == 1
    then (do out ← print_channel_list buffer; ok (record { out = out; errors = [] }))
    else if type == 2
    then (do out ← print_user_list buffer; ok (record { out = out; errors = [] }))
    else if type == 3
    then (do out ← bytes_at buffer 4 say_max; ok (record { out = out; errors = [] }))
    else ok (record { out = []; errors = literal 17 (codes "Invalid request: ") })

-- A round of `recv_thread` in which a datagram comes.
unfoldable pub on_datagram : ℕ → Bytes → Result Screen
on_datagram size datagram = do
  let buffer = socket_recv size datagram (zeros size)
  type ← int_at buffer 0
  s ← show_text buffer type
  ok (record s { out = clear_stdout 50 ++ (s.out ++ literal 3 (codes "\n> ")) })
