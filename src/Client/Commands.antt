-- ===== src/Client/Commands.antt =====
-- Commands: what the client sends for a say and for a join, and what it keeps of its channels.
use shell_chat_app_multi_ser.Base.{
  ℕ, suc, ◌<◌, ◌≡◌, refl, ap, ◌∙◌, true, false, ◌==◌, List, [], ◌∷◌, ◌++◌, length, Text, ok,
  strcpy-ok, append-nil,
}
use shell_chat_app_multi_ser.Duckchat.{channel_max, say_max}
use shell_chat_app_multi_ser.Cells.{Cells}
use shell_chat_app_multi_ser.Packets.{say}
use shell_chat_app_multi_ser.Client.{slash, decode_input}
use shell_chat_app_multi_ser.Client.Requests.{send_say_req, sendto}
use shell_chat_app_multi_ser.Client.Loop.{Client, on_command, on_line, after}
use shell_chat_app_multi_ser.Client.Waiting.{zeros, has_zero, Waits, on_line-text, clear-prompt}

-- If the client waits with a cleared buffer and `js` joined, a line that is no command is sent as a say
-- to the active channel, if it and the channel's name fit their fields and the line the buffer. The
-- client waits again, with the same channels, and writes nothing to the terminal.
pub on_line-says :
    (c : Client) (n : ℕ) (js : List Text) (x : ℕ) (line : Text)
    → Waits c n js
    → (x == slash) ≡ false
    → has_zero (x ∷ line) ≡ false
    → suc (length (x ∷ line)) < n
    → length (x ∷ line) < say_max
    → length c.active_channel < channel_max
    → (c' : Client) × (on_line true (x ∷ line) c ≡ ok c')
      × Waits c' n js
      × (c'.requests ≡ c.requests ++ say c.active_channel (x ∷ line) ∷ [])
      × (c'.notices ≡ c.notices)
      × (c'.active_channel ≡ c.active_channel)
unfolding decode_input on_command send_say_req
on_line-says c n js x line v slashless h long text channel =
    let (buff, size, e) = on_line-text true (x ∷ line) c n js v h long in
    let sent : Client =
      after (sendto true (say c.active_channel (x ∷ line))) (record c { buff = buff }) in
    (
      record sent { buff = zeros n },
      e
          ∙ rw
              (
                slashless,
                strcpy-ok channel_max c.active_channel channel,
                strcpy-ok say_max (x ∷ line) text,
              )
              (ap ok (clear-prompt sent n v.runs size)),
      record { cleared = refl; runs = v.runs; joined = v.joined; count = v.count; size = v.size },
      refl,
      append-nil c.notices,
      refl,
    )
