-- ===== src/Client/Loop.antt =====
-- The loop of `send_thread` (client.c): a line is read, decoded and acted on.
use shell_chat_app_multi_ser.Base.{
  ℕ, suc, ◌-◌, Bool, true, false, ◌==◌, Option, none, some, List, [], ◌∷◌, ◌++◌, length, replicate,
  pos, Text, str_eq, Result, ok, strcpy, ◌>>=◌, if◌then◌else◌,
}
use shell_chat_app_multi_ser.Duckchat.{channel_max, common}
use shell_chat_app_multi_ser.Cells.{Cells, uninit, null, full, write, search, remove_loop}
use shell_chat_app_multi_ser.Packets.{Request}
use shell_chat_app_multi_ser.Client.{
  Code, req_say, req_join, req_list, req_who, req_leave, req_switch, req_logout, invalid,
  decode_input, get_command_arg, pointed, c_string, read_line,
}
use shell_chat_app_multi_ser.Client.Requests.{
  Notice, Sent, not_enough_arguments, cannot_find_channel, not_joined, terribly_wrong,
  send_join_req, send_say_req, send_list_req, send_who_req, send_leave_req, send_logout_req,
}

abbrev pub max_joined : ℕ
max_joined = 32

-- The local variables of `send_thread`, with what it has sent and written, oldest first.
pub record Client : Type 0 where
  pub buff : List ℕ
  pub joined_chnls : Cells Text
  pub joined_len : ℕ
  pub active_channel : Text
  pub logout : Bool
  pub requests : List Request
  pub notices : List Notice

-- `buff` comes from `malloc` and holds anything.
unfoldable pub start_client : List ℕ → Client
start_client buff = record {
  buff = buff;
  joined_chnls = full common ∷ replicate 31 uninit;
  joined_len = 1;
  active_channel = common;
  logout = false;
  requests = [];
  notices = [];
}

abbrev listed {ℓ} : {A : Type ℓ} → Option A → List A
listed none = []
listed (some a) = a ∷ []

-- What a call sent and wrote is put behind the rest.
abbrev pub after : Sent → Client → Client
after sent c = record c {
  requests = c.requests ++ listed sent.request;
  notices = c.notices ++ listed sent.notice;
}

abbrev pub notify : Notice → Client → Client
notify n c = record c { notices = c.notices ++ n ∷ [] }

-- `cmp`
unfoldable pub cmp : Text → Text → Result Bool
cmp want_name chnl_name = ok (str_eq chnl_name want_name)

unfoldable pub on_join : Bool → Text → Client → Result Client
on_join up buff c = do
  (sent, active) ← send_join_req up buff c.active_channel
  let (arg, chnl_len) = get_command_arg buff
  s ← pointed arg
  chnl ← strcpy channel_max s
  let c' = after sent (record c { active_channel = active })
  (if chnl_len == 0 then ok c' else (do
    joined ← write c.joined_chnls (pos c.joined_len) (full chnl)
    ok (record c' { joined_chnls = joined; joined_len = suc c.joined_len })))

-- How a case ends: with the prompt, before which the buffer is cleared, or by `continue`.
pub data After : Type 0 where
  prompt again : After

-- The joined channel is looked for, and the later ones are moved down; the request is sent if it was
-- there.
unfoldable pub on_leave : Bool → Text → Client → Result (Client × After)
on_leave up buff c = do
  let (arg, chnl_len) = get_command_arg buff
  s ← pointed arg
  chnl ← strcpy channel_max s
  (if chnl_len == 0 then ok (notify not_enough_arguments c, again) else (do
    (joined, leave_chnl) ← remove_loop (cmp chnl) none c.joined_chnls 0 c.joined_len
    elim leave_chnl [
      | full name ↦ (do
        (sent, active) ← send_leave_req up buff c.active_channel
        ok (
          after sent (record c {
            joined_chnls = joined;
            joined_len = c.joined_len - 1;
            active_channel = active;
          }),
          prompt,
        ))
      | uninit ↦ ok (notify (cannot_find_channel chnl) c, prompt)
      | null ↦ ok (notify (cannot_find_channel chnl) c, prompt)
    ]))

-- The channel to switch to is the last joined one of that name, which is that name.
unfoldable pub on_switch : Text → Client → Result (Client × After)
on_switch buff c =
    let (arg, chnl_len) = get_command_arg buff in
    if chnl_len == 0 then ok (notify not_enough_arguments c, again) else (do
      chnl ← pointed arg
      found ← search (cmp chnl) c.joined_chnls 0 c.joined_len
      elim found [
        | some (i, name) ↦ ok (record c { active_channel = name }, prompt)
        | none ↦ ok (notify (not_joined chnl) c, prompt)
      ])

unfoldable pub on_command : Bool → Text → Code → Client → Result (Client × After)
on_command up buff req_join c = do c' ← on_join up buff c; ok (c', prompt)
on_command up buff req_say c = do
  sent ← send_say_req up c.active_channel buff
  ok (after sent c, prompt)
on_command up buff req_list c = ok (after (send_list_req up) c, prompt)
on_command up buff req_who c = do sent ← send_who_req up buff; ok (after sent c, prompt)
on_command up buff req_leave c = on_leave up buff c
on_command up buff req_switch c = on_switch buff c
on_command up buff req_logout c =
    ok (record (after (send_logout_req up) c) { logout = true }, prompt)
on_command up buff invalid c = ok (notify terribly_wrong c, prompt)

-- `memset(buff, '\0', BUFSIZ)`, unless the client has logged out.
abbrev pub clear : After → Client → Client
clear again c = c
clear prompt c = if c.logout then c else record c { buff = replicate (length c.buff) 0 }

-- A round of the main loop on a line.
unfoldable pub on_line : Bool → Text → Client → Result Client
on_line up line c = do
  buff ← read_line line c.buff
  let text = c_string buff
  (c', next) ← on_command up text (decode_input text) (record c { buff = buff })
  ok (clear next c')
