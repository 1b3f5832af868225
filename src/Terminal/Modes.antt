-- ===== src/Terminal/Modes.antt =====
-- Modes: what is left of the terminal's settings.
use shell_chat_app_multi_ser.Base.{◌≡◌, refl, Bool, true, false, if◌then◌else◌}
use shell_chat_app_multi_ser.Terminal.{Tty, zero_termios, raw_mode, cooked_mode}

-- If `tcsetattr` succeeds, `cooked_mode` after `raw_mode` restores the settings that the terminal had
-- just before, unless `tcgetattr` failed, which leaves those in `oldterm`, all zero at first.
pub cooked_mode-raw_mode :
    (get : Bool) (t : Tty)
    → t.oldterm ≡ zero_termios
    → (cooked_mode true (raw_mode get true t).0).term ≡ (if get then t.term else zero_termios)
unfolding raw_mode cooked_mode
cooked_mode-raw_mode true t first = refl
cooked_mode-raw_mode false t first = first
