-- ===== src/Client/Requests.antt =====
-- The requests that the client sends: helper_functions.c, the functions `send_*_req`. Their argument `up`
-- tells whether `sendto` succeeds.
use shell_chat_app_multi_ser.Base.{
  ℕ, Bool, true, false, ◌==◌, Option, none, some, Text, Result, ok, err, buffer_overflow, strcpy,
  leb, ◌>>=◌, if◌then◌else◌,
}
use shell_chat_app_multi_ser.Duckchat.{channel_max, say_max, common}
use shell_chat_app_multi_ser.Packets.{Request, logout, join, leave, say, list, who}
use shell_chat_app_multi_ser.Client.{starts_with, get_command_arg, pointed}

-- What the client writes to the terminal, beside what it echoes.
pub data Notice : Type 0 where
  not_enough_arguments : Notice
  could_not_send : Notice
  cannot_find_channel : Text → Notice
  not_joined : Text → Notice
  terribly_wrong : Notice

-- What a call sends, what it writes to the terminal, and its result.
pub record Sent : Type 0 where
  pub request : Option Request
  pub notice : Option Notice
  pub ret : ℕ

-- `sendto`, and the return of its caller.
abbrev pub sendto : Bool → Request → Sent
sendto true rq = record { request = some rq; notice = none; ret = 1 }
sendto false rq = record { request = none; notice = some could_not_send; ret = 0 }

-- The return without an argument.
abbrev pub refused : Sent
refused = record { request = none; notice = some not_enough_arguments; ret = 0 }

-- `strncpy(field, s, strlen(s))` into a field of zeros.
unfoldable pub strncpy : ℕ → Text → ℕ → Result Text
strncpy size s n = if leb n size then ok s else err buffer_overflow

-- `active_channel` is set once the request is sent.
unfoldable pub send_join_req : Bool → Text → Text → Result (Sent × Text)
send_join_req up buff active_channel =
    let (arg, chnl_len) = get_command_arg buff in
    if chnl_len == 0 then ok (refused, active_channel) else (do
      chnl ← pointed arg
      req_channel ← strncpy channel_max chnl chnl_len
      active ← if up then strcpy channel_max chnl else ok active_channel
      ok (sendto up (join req_channel), active))

unfoldable pub send_say_req : Bool → Text → Text → Result Sent
send_say_req up active_channel buff = do
  channel ← strcpy channel_max active_channel
  text ← strcpy say_max buff
  ok (sendto up (say channel text))

unfoldable pub send_list_req : Bool → Sent
send_list_req up = sendto up list

unfoldable pub send_who_req : Bool → Text → Result Sent
send_who_req up buff =
    let (arg, chnl_len) = get_command_arg buff in
    if chnl_len == 0 then ok refused else (do
      chnl ← pointed arg
      req_channel ← strncpy channel_max chnl chnl_len
      ok (sendto up (who req_channel)))

-- The active channel is `Common` again if its name begins with the one that is left.
unfoldable pub send_leave_req : Bool → Text → Text → Result (Sent × Text)
send_leave_req up buff active_channel =
    let (arg, chnl_len) = get_command_arg buff in
    if chnl_len == 0 then ok (refused, active_channel) else (do
      chnl ← pointed arg
      req_channel ← strncpy channel_max chnl chnl_len
      ok (
        sendto up (leave req_channel),
        if starts_with chnl active_channel then common else active_channel,
      ))

unfoldable pub send_logout_req : Bool → Sent
send_logout_req up = sendto up logout
