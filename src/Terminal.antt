-- ===== src/Terminal.antt =====
-- raw.c: the terminal's modes. Whether `tcgetattr` and `tcsetattr` succeed is given with each call.
pub mod Modes
use shell_chat_app_multi_ser.Base.{ℕ, Bool, true, false, ℤ, pos, negsuc}

-- `struct termios`: the two flags of `c_lflag` and the two characters that are set here; `others` stands
-- for all the rest, as one number.
pub record Termios : Type 0 where
  pub echo : Bool
  pub icanon : Bool
  pub vmin : ℕ
  pub vtime : ℕ
  pub others : ℕ

-- The terminal's settings, and the static variable `oldterm`.
pub record Tty : Type 0 where
  pub term : Termios
  pub oldterm : Termios

-- A static variable starts with all its bytes zero.
abbrev pub zero_termios : Termios
zero_termios = record { echo = false; icanon = false; vmin = 0; vtime = 0; others = 0 }

-- `tcsetattr`
abbrev set_term : Bool → Termios → Tty → Tty
set_term true term t = record t { term = term }
set_term false term t = t

abbrev pub raw : Termios → Termios
raw term = record term { echo = false; icanon = false; vmin = 1; vtime = 0 }

-- The terminal afterwards, and what is returned.
unfoldable pub raw_mode : Bool → Bool → Tty → Tty × ℤ
raw_mode false set t = (t, negsuc 0)
raw_mode true set t = (set_term set (raw t.term) (record t { oldterm = t.term }), pos 0)

unfoldable pub cooked_mode : Bool → Tty → Tty
cooked_mode set t = set_term set t.oldterm t
