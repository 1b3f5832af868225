-- ===== src/Wire.antt =====
-- The bytes of a datagram: the packed structures of duckchat.h, little-endian, with `int` of 4 and
-- `unsigned long` of 8 bytes; what a sender lays out and what a receiver reads from its buffer.
pub mod Fields
pub mod Requests
pub mod Padding
use shell_chat_app_multi_ser.Base.{
  ℕ, zero, suc, ◌+◌, ◌-◌, ◌*◌, ◌/◌, ◌%◌, ◌==◌, List, [], ◌∷◌, ◌++◌, length, take, drop, Text,
  Result, ok, err, ◌>>=◌, out_of_bounds, if◌then◌else◌,
}
use shell_chat_app_multi_ser.Duckchat.{username_max, channel_max, say_max}
use shell_chat_app_multi_ser.Packets.{
  Request, login, logout, join, leave, say, list, who, keep_alive, serv_join, serv_leave, serv_say,
  unknown, Reply, text_say, text_list, text_who, text_error,
}

abbrev pub Bytes : Type 0
Bytes = List ℕ

-- An `int`, or half of an `unsigned long`.
abbrev pub int_bytes : ℕ → Bytes
int_bytes n = n % 256 ∷ n / 256 % 256 ∷ n / 65536 % 256 ∷ n / 16777216 % 256 ∷ []

abbrev pub long_bytes : ℕ → Bytes
long_bytes n = int_bytes (n % 4294967296) ++ int_bytes (n / 4294967296)

-- A `char[size]` with a string in it: behind the string's end is what its bytes were before.
abbrev pub field : ℕ → Text → Bytes → Bytes
field size s before = s ++ 0 ∷ drop (suc (length s)) (take size before)

-- What a structure holds after `memset(&t, 0, sizeof(t))`, or more of it.
abbrev pub zeros : ℕ → Bytes
zeros zero = []
zeros (suc n) = 0 ∷ zeros n

-- A structure that was cleared before it was filled.
abbrev pub clear_field : ℕ → Text → Bytes
clear_field size s = field size s (zeros size)

-- The structures of the requests; `req_type` stands first.
unfoldable pub encode : Request → Bytes
encode (login username) = int_bytes 0 ++ clear_field username_max username
encode logout = int_bytes 1
encode (join channel) = int_bytes 2 ++ clear_field channel_max channel
encode (leave channel) = int_bytes 3 ++ clear_field channel_max channel
encode (say channel text) =
    int_bytes 4 ++ (clear_field channel_max channel ++ clear_field say_max text)
encode list = int_bytes 5
encode (who channel) = int_bytes 6 ++ clear_field channel_max channel
encode keep_alive = int_bytes 7
encode (serv_join channel) = int_bytes 8 ++ clear_field channel_max channel
encode (serv_leave channel) = int_bytes 9 ++ clear_field channel_max channel
encode (serv_say id username channel text) =
    int_bytes 10
    ++ (long_bytes id
        ++ (clear_field username_max username
            ++ (clear_field channel_max channel ++ clear_field say_max text)))
encode (unknown type) = int_bytes type

-- `recvfrom` into a buffer of `size` bytes: the datagram, as far as it fits, over what was there.
unfoldable pub socket_recv : ℕ → Bytes → Bytes → Bytes
socket_recv size datagram buffer = let got = take size datagram in got ++ drop (length got) buffer

abbrev pub read_int : Bytes → Result ℕ
read_int (a ∷ b ∷ c ∷ d ∷ rest) = ok (a + 256 * b + 65536 * c + 16777216 * d)
read_int other = err out_of_bounds

-- The string from a place of the buffer on, to the first zero byte.
abbrev pub until_zero : Bytes → Result Text
until_zero [] = err out_of_bounds
until_zero (c ∷ buffer) =
    let rest = until_zero buffer in if c == 0 then ok [] else (do s ← rest; ok (c ∷ s))

abbrev pub int_at : Bytes → ℕ → Result ℕ
int_at buffer k = read_int (drop k buffer)

abbrev pub long_at : Bytes → ℕ → Result ℕ
long_at buffer k = do
  low ← int_at buffer k
  high ← int_at buffer (k + 4)
  ok (low + 4294967296 * high)

abbrev pub string_at : Bytes → ℕ → Result Text
string_at buffer k = until_zero (drop k buffer)

-- The structure that the buffer is cast to, by its `req_type`.
abbrev pub cast : Bytes → ℕ → Result Request
cast buffer type =
    if type == 0
    then (do username ← string_at buffer 4; ok (login username))
    else if type == 1
    then ok logout
    else if type == 2
    then (do channel ← string_at buffer 4; ok (join channel))
    else if type == 3
    then (do channel ← string_at buffer 4; ok (leave channel))
    else if type == 4
    then (do channel ← string_at buffer 4; text ← string_at buffer 36; ok (say channel text))
    else if type == 5
    then ok list
    else if type == 6
    then (do channel ← string_at buffer 4; ok (who channel))
    else if type == 7
    then ok keep_alive
    else if type == 8
    then (do channel ← string_at buffer 4; ok (serv_join channel))
    else if type == 9
    then (do channel ← string_at buffer 4; ok (serv_leave channel))
    else if type == 10
    then (do
      id ← long_at buffer 4
      username ← string_at buffer 12
      channel ← string_at buffer 44
      text ← string_at buffer 76
      ok (serv_say id username channel text))
    else ok (unknown type)

-- The request in a buffer. Its fields are read at once.
unfoldable pub parse : Bytes → Result Request
parse buffer = do type ← int_at buffer 0; cast buffer type

-- The entries of a list at the end of a structure, over what the block held before.
abbrev pub entries : Bytes → List Text → Bytes
entries before [] = []
entries before (name ∷ names) = field 32 name before ++ entries (drop 32 before) names

-- The structures of the replies. That of REQ_LIST comes from `malloc` and is not cleared: `before` is
-- what its entries held. That of REQ_WHO is a cleared block of `size` bytes.
unfoldable pub encode_reply : Bytes → Reply → Bytes
encode_reply before (text_say channel username text) =
    int_bytes 0
    ++ (clear_field channel_max channel
        ++ (clear_field username_max username ++ clear_field say_max text))
encode_reply before (text_list n names) = int_bytes 1 ++ (int_bytes n ++ entries before names)
encode_reply before (text_who size n channel names) = take size (
    int_bytes 2
    ++ (int_bytes n
        ++ (clear_field channel_max channel ++ (entries (zeros size) names ++ zeros size))))
encode_reply before (text_error message) = int_bytes 3 ++ clear_field say_max message
