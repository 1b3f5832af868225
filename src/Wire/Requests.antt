-- ===== src/Wire/Requests.antt =====
-- Requests through the bytes of a datagram.
use shell_chat_app_multi_ser.Base.{
  ℕ, zero, suc, ◌+◌, ◌*◌, ◌/◌, ◌%◌, ◌≤◌, ◌<◌, ◌≡◌, refl, ap, sym, ◌∙◌, [], ◌∷◌, ◌++◌, append_assoc,
  length, length-append, take, drop, Text, ok, arith,
}
use shell_chat_app_multi_ser.Duckchat.{username_max, channel_max, say_max}
use shell_chat_app_multi_ser.Packets.{
  Request, login, logout, join, leave, say, list, who, keep_alive, serv_join, serv_leave, serv_say,
  unknown,
}
use shell_chat_app_multi_ser.Wire.{
  Bytes, clear_field, zeros, encode, parse, socket_recv, until_zero,
}
use shell_chat_app_multi_ser.Wire.Fields.{
  Fits, text_there, next_there, drop-add, length-field, length-zeros,
}

-- The texts fit their fields, and the id its eight bytes; the type is one that duckchat.h has.
abbrev pub IsSendable : Request → Type 0
IsSendable (login username) = Fits username_max username
IsSendable logout = Unit
IsSendable (join channel) = Fits channel_max channel
IsSendable (leave channel) = Fits channel_max channel
IsSendable (say channel text) = Fits channel_max channel × Fits say_max text
IsSendable list = Unit
IsSendable (who channel) = Fits channel_max channel
IsSendable keep_alive = Unit
IsSendable (serv_join channel) = Fits channel_max channel
IsSendable (serv_leave channel) = Fits channel_max channel
IsSendable (serv_say id username channel text) =
    (id < 18446744073709551616)
    × Fits username_max username
    × Fits channel_max channel
    × Fits say_max text
IsSendable (unknown type) = ⊥

-- Two fields that follow one another.
two_fields :
    (size : ℕ) (s : Text) (size' : ℕ) (t : Text) (rest : Bytes)
    → Fits size s
    → Fits size' t
    → (until_zero ((clear_field size s ++ clear_field size' t) ++ rest) ≡ ok s)
      × (until_zero (drop size ((clear_field size s ++ clear_field size' t) ++ rest)) ≡ ok t)
two_fields size s size' t rest hs ht =
    let there = append_assoc (clear_field size s) (clear_field size' t) rest in
    (
      ap until_zero there ∙ text_there size s (clear_field size' t ++ rest) hs,
      ap (λ b. until_zero (drop size b)) there
          ∙ ap until_zero (next_there size s (clear_field size' t ++ rest) hs)
          ∙ text_there size' t rest ht,
    )

three_fields :
    (username channel text : Text) (rest : Bytes)
    → Fits username_max username
    → Fits channel_max channel
    → Fits say_max text
    → let body =
        (clear_field username_max username
          ++ (clear_field channel_max channel ++ clear_field say_max text))
        ++ rest in
      (until_zero body ≡ ok username)
      × (until_zero (drop 32 body) ≡ ok channel)
      × (until_zero (drop 64 body) ≡ ok text)
three_fields username channel text rest hu hc ht =
    let u = clear_field username_max username in
    let more = clear_field channel_max channel ++ clear_field say_max text in
    let there = append_assoc u more rest in
    let next : drop 32 ((u ++ more) ++ rest) ≡ more ++ rest =
      ap (drop 32) there ∙ next_there username_max username (more ++ rest) hu in
    let (c, t) = two_fields channel_max channel say_max text rest hc ht in
    (
      ap until_zero there ∙ text_there username_max username (more ++ rest) hu,
      ap until_zero next ∙ c,
      ap until_zero (sym (drop-add 32 32 ((u ++ more) ++ rest)))
          ∙ ap (λ b. until_zero (drop 32 b)) next
          ∙ t,
    )

long_back :
    (id : ℕ)
    → id < 18446744073709551616
    → (id % 4294967296 % 256
          + 256 * (id % 4294967296 / 256 % 256)
          + 65536 * (id % 4294967296 / 65536 % 256)
          + 16777216 * (id % 4294967296 / 16777216 % 256))
        + 4294967296
          * (id / 4294967296 % 256
              + 256 * (id / 4294967296 / 256 % 256)
              + 65536 * (id / 4294967296 / 65536 % 256)
              + 16777216 * (id / 4294967296 / 16777216 % 256))
      ≡ id
long_back id h = omega arith

-- Every request of duckchat.h whose texts fit their fields is read from a buffer as it was laid out,
-- whatever the buffer holds behind the datagram.
pub parse-encode : (rq : Request) (rest : Bytes) → IsSendable rq → parse (encode rq ++ rest) ≡ ok rq
unfolding parse encode
parse-encode (login username) rest h = rw (text_there username_max username rest h) refl
parse-encode logout rest h = refl
parse-encode (join channel) rest h = rw (text_there channel_max channel rest h) refl
parse-encode (leave channel) rest h = rw (text_there channel_max channel rest h) refl
parse-encode (say channel text) rest h =
    let (at4, at36) = two_fields channel_max channel say_max text rest h.0 h.1 in
    rw (at4, at36) refl
parse-encode list rest h = refl
parse-encode (who channel) rest h = rw (text_there channel_max channel rest h) refl
parse-encode keep_alive rest h = refl
parse-encode (serv_join channel) rest h = rw (text_there channel_max channel rest h) refl
parse-encode (serv_leave channel) rest h = rw (text_there channel_max channel rest h) refl
parse-encode (serv_say id username channel text) rest h =
    let (at12, at44, at76) = three_fields username channel text rest h.1 h.2 h.3 in
    rw (at12, at44, at76) (ap (λ k. ok (serv_say k username channel text)) (long_back id h.0))
parse-encode (unknown type) rest h = absurd h

pub take_all : (n : ℕ) (xs : Bytes) → length xs ≤ n → take n xs ≡ xs
take_all zero [] h = refl
take_all zero (x ∷ xs) h = elim h [ ]
take_all (suc n) [] h = refl
take_all (suc n) (x ∷ xs) h = ap (◌∷◌ x) (take_all n xs (omega arith))

pub cleared : (size : ℕ) (s : Text) → Fits size s → length (clear_field size s) ≡ size
cleared size s h = length-field size s (zeros size) h.0 (omega (arith, length-zeros size))

-- No request is longer than that of a say between servers.
length-encode : (rq : Request) → IsSendable rq → length (encode rq) ≤ 140
unfolding encode
length-encode (login username) h = omega (arith, cleared username_max username h)
length-encode logout h = omega arith
length-encode (join channel) h = omega (arith, cleared channel_max channel h)
length-encode (leave channel) h = omega (arith, cleared channel_max channel h)
length-encode (say channel text) h = omega (
  arith,
  cleared channel_max channel h.0,
  cleared say_max text h.1,
  length-append (clear_field channel_max channel) (clear_field say_max text),
)
length-encode list h = omega arith
length-encode (who channel) h = omega (arith, cleared channel_max channel h)
length-encode keep_alive h = omega arith
length-encode (serv_join channel) h = omega (arith, cleared channel_max channel h)
length-encode (serv_leave channel) h = omega (arith, cleared channel_max channel h)
length-encode (serv_say id username channel text) h = omega (
  arith,
  cleared username_max username h.1,
  cleared channel_max channel h.2,
  cleared say_max text h.3,
  length-append (clear_field channel_max channel) (clear_field say_max text),
  length-append (clear_field username_max username)
      (clear_field channel_max channel ++ clear_field say_max text),
)
length-encode (unknown type) h = absurd h

-- A request of duckchat.h whose texts fit their fields, received into a buffer of at least 140 bytes,
-- is read as it was sent, whatever the buffer held before.
pub parse-socket_recv :
    (size : ℕ) (rq : Request) (buffer : Bytes)
    → IsSendable rq
    → 140 ≤ size
    → parse (socket_recv size (encode rq) buffer) ≡ ok rq
unfolding socket_recv
parse-socket_recv size rq buffer h room =
    rw (take_all size (encode rq) (omega (arith, length-encode rq h)))
      (parse-encode rq (drop (length (encode rq)) buffer) h)
