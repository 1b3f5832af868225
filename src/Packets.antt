-- ===== src/Packets.antt =====
-- The packets of duckchat.h, and the functions of helper_functions.c that fill one. A text field is
-- the C string that starts there; filling a field with a text that does not fit is an overflow.
pub mod Fits
use shell_chat_app_multi_ser.Base.{ℕ, List, ◌++◌, Text, codes, Result, ok, ◌>>=◌, strcpy}
use shell_chat_app_multi_ser.Duckchat.{username_max, channel_max, say_max}

-- What a server receives, by `req_type`; fields in the order of the struct.
pub data Request : Type 0 where
  login : Text → Request
  logout : Request
  join : Text → Request
  leave : Text → Request
  say : Text → Text → Request
  list : Request
  who : Text → Request
  keep_alive : Request
  serv_join : Text → Request
  serv_leave : Text → Request
  serv_say : ℕ → Text → Text → Text → Request
  unknown : ℕ → Request

-- What a client receives, by `txt_type`. `text_who` has the number of bytes that are sent first.
pub data Reply : Type 0 where
  text_say : Text → Text → Text → Reply
  text_list : ℕ → List Text → Reply
  text_who : ℕ → ℕ → Text → List Text → Reply
  text_error : Text → Reply

-- `strcat` into `char[size]`
abbrev pub strcat : ℕ → Text → Text → Result Text
strcat size s t = strcpy size (s ++ t)

abbrev pub cannot_find : Text
cannot_find = codes "Error: Cannot find channel: "

unfoldable pub fill_error : Text → Result Reply
fill_error chnl_name = do
  message ← strcpy say_max (cannot_find ++ chnl_name)
  ok (text_error message)

abbrev pub channel_quote : Text
channel_quote = codes "Error: Channel \""

abbrev pub not_exist : Text
not_exist = codes "\" does not exist"

-- The error that the server's REQ_WHO case puts together itself.
unfoldable pub fill_who_error : Text → Result Reply
fill_who_error chnl_name = do
  start ← strcpy say_max channel_quote
  named ← strcat say_max start chnl_name
  message ← strcat say_max named not_exist
  ok (text_error message)

unfoldable pub s2s_fill_say : Text → Text → Text → Result Request
s2s_fill_say channel username text = do
  c ← strcpy channel_max channel
  u ← strcpy username_max username
  t ← strcpy say_max text
  ok (serv_say 0 u c t)

unfoldable pub s2s_fill_join : Text → Result Request
s2s_fill_join channel = do c ← strcpy channel_max channel; ok (serv_join c)

unfoldable pub s2s_fill_leave : Text → Result Request
s2s_fill_leave channel = do c ← strcpy channel_max channel; ok (serv_leave c)

unfoldable pub fill_text_say : Text → Text → Text → Result Reply
fill_text_say channel username text = do
  c ← strcpy channel_max channel
  u ← strcpy username_max username
  t ← strcpy say_max text
  ok (text_say c u t)
