-- ===== src/Client.antt =====
-- What a line typed at the client means: client.c, `send_thread`, and helper_functions.c, the functions
-- that take a command apart. The buffer is read as the bytes before the first zero.
pub mod Requests
pub mod Loop
pub mod Screen
pub mod Start
pub mod Threads
pub mod Lines
pub mod Waiting
pub mod Commands
pub mod Joined
use shell_chat_app_multi_ser.Base.{
  ℕ, zero, suc, ◌+◌, ◌-◌, drop, Bool, true, false, ◌&&◌, ◌==◌, Option, none, some, List, [], ◌∷◌,
  length, set, ltb, Text, codes, Result, ok, err, out_of_bounds, buffer_overflow, if◌then◌else◌,
}

-- What `decode_input` returns; `invalid` is -1.
pub data Code : Type 0 where
  req_say req_join req_list req_who req_leave req_switch req_logout invalid : Code

-- `strncmp(prefix, s, strlen(prefix)) == 0`
abbrev pub starts_with : Text → Text → Bool
starts_with [] s = true
starts_with (c ∷ prefix) [] = false
starts_with (c ∷ prefix) (x ∷ s) = let rest = starts_with prefix s in if c == x then rest else false

-- `'/'`
abbrev pub slash : ℕ
slash = 47

-- `' '`
abbrev pub space : ℕ
space = 32

-- The commands, in the order in which they are tried.
abbrev command : Text → Code
command inp =
    if starts_with (codes "/join") inp
    then req_join
    else if starts_with (codes "/list") inp
    then req_list
    else if starts_with (codes "/who") inp
    then req_who
    else if starts_with (codes "/leave") inp
    then req_leave
    else if starts_with (codes "/switch") inp
    then req_switch
    else if starts_with (codes "/exit") inp
    then req_logout
    else invalid

unfoldable pub decode_input : Text → Code
decode_input [] = req_say
decode_input (c ∷ inp) = if c == slash then command (c ∷ inp) else req_say

-- The loop over the buffer: how far it comes, and where the text behind the first space starts.
unfoldable pub command_loop : Text → ℕ → Option ℕ → ℕ × Option ℕ
command_loop [] i chnl_start = (i, chnl_start)
command_loop (c ∷ buf) i (some k) = command_loop buf (suc i) (some k)
command_loop (c ∷ buf) i none =
    let start = (if c == space then some (suc i) else none) in command_loop buf (suc i) start

abbrev pub found_arg : Text → ℕ × Option ℕ → Option Text × ℕ
found_arg buf (i, none) = (none, 0)
found_arg buf (i, some k) = (some (drop k buf), i - k)

-- The text behind the first space, and its length. Without a space the length is 0 and the pointer, which
-- is `none` here, points in front of the buffer.
unfoldable pub get_command_arg : Text → Option Text × ℕ
get_command_arg buf = found_arg buf (command_loop buf 0 none)

-- A read through the pointer that `get_command_arg` returns.
abbrev pub pointed : Option Text → Result Text
pointed none = err out_of_bounds
pointed (some s) = ok s

-- The string that a buffer holds.
abbrev pub c_string : List ℕ → Text
c_string [] = []
c_string (c ∷ buff) = let rest = c_string buff in if c == 0 then [] else c ∷ rest

-- `buff[char_ind++] = c` for every character of the line.
abbrev pub put_line : Text → List ℕ → List ℕ
put_line [] buff = buff
put_line (c ∷ line) [] = []
put_line (c ∷ line) (x ∷ buff) = c ∷ put_line line buff

-- The loop that reads a line, and `buff[char_ind + 1] = '\0'`.
unfoldable pub read_line : Text → List ℕ → Result (List ℕ)
read_line line buff =
    if ltb (suc (length line)) (length buff)
    then ok (set (put_line line buff) (suc (length line)) 0)
    else err buffer_overflow
