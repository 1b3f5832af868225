-- ===== src/Client/Joined.antt =====
-- The commands on channels that were joined: leave and switch.
use shell_chat_app_multi_ser.Base.{
  ℕ, suc, ◌+◌, ◌≤◌, ◌<◌, ◌≡◌, refl, ap, sym, ◌∙◌, true, false, none, some, List, [], ◌∷◌, length,
  any, Text, codes, str_eq, str_eq-eq, ok, strcpy-ok, arith, if◌then◌else◌, Bool-cases, inl, inr,
  ◌⊎◌,
}
use shell_chat_app_multi_ser.Duckchat.{channel_max}
use shell_chat_app_multi_ser.Cells.{search, remove_loop}
use shell_chat_app_multi_ser.Cells.Search.{search-Begins, find_index}
use shell_chat_app_multi_ser.Cells.Shift.{remove_loop-absent}
use shell_chat_app_multi_ser.Client.{decode_input}
use shell_chat_app_multi_ser.Client.Requests.{cannot_find_channel, not_joined}
use shell_chat_app_multi_ser.Client.Loop.{
  Client, cmp, on_leave, on_switch, on_command, on_line, notify,
}
use shell_chat_app_multi_ser.Client.Lines.{get_command_arg-split}
use shell_chat_app_multi_ser.Client.Waiting.{
  has_zero, Waits, on_line-text, not_zero, All-cmp, clear-prompt, typed,
}

-- If the client waits with a cleared buffer and `js` joined, `/leave` with a name that is not among
-- them, but fits its field and the buffer, sends nothing and says that it cannot find the channel.
pub on_line-leaves_unknown :
    (c : Client) (n : ℕ) (js : List Text) (name : Text)
    → Waits c n js
    → has_zero name ≡ false
    → 1 ≤ length name
    → length name < channel_max
    → length name + 8 < n
    → any (λ j. str_eq j name) js ≡ false
    → on_line true (typed "/leave" name) c ≡ ok (notify (cannot_find_channel name) c)
unfolding decode_input on_command on_leave
on_line-leaves_unknown c n js name v h some_name fits long absent =
    let (buff, size, e) = on_line-text true (typed "/leave" name) c n js v h (omega arith) in
    e
    ∙ rw
        (
          get_command_arg-split (codes "/leave") name refl,
          strcpy-ok channel_max name fits,
          not_zero name some_name,
          ap (remove_loop (cmp name) none c.joined_chnls 0) v.count
              ∙ remove_loop-absent (cmp name) (λ j. str_eq j name) c.joined_chnls 0 js v.joined
                  (All-cmp name js) absent,
        )
        (ap ok (
          clear-prompt (notify (cannot_find_channel name) (record c { buff = buff })) n v.runs size
          ∙ ap (λ b. notify (cannot_find_channel name) (record c { buff = b })) (sym v.cleared)))

-- A name is found among the joined ones, as that name, or it is not there.
joined-cases :
    (name : Text) (js : List Text) (i : ℕ)
    → ((k : ℕ) × (find_index (λ j. str_eq j name) i js ≡ some (k, name))
        × (any (λ j. str_eq j name) js ≡ true))
      ⊎ ((find_index (λ j. str_eq j name) i js ≡ none) × (any (λ j. str_eq j name) js ≡ false))
joined-cases name [] i = inr (refl, refl)
joined-cases name (j ∷ js) i = elim (Bool-cases (str_eq j name)) [
  | inl hit ↦ inl (i, rw hit (ap (λ x. some (i, x)) (str_eq-eq j name hit)), rw hit refl)
  | inr miss ↦ elim (joined-cases name js (suc i)) [
    | inl (k, at, here) ↦ inl (k, rw miss at, rw miss here)
    | inr (nowhere, absent) ↦ inr (rw miss nowhere, rw miss absent)
  ]
]

-- If the client waits with a cleared buffer and `js` joined, `/switch` and a name of at least one byte
-- that fits the buffer makes the channel the active one if it is among the joined ones, and otherwise
-- says that it is not joined. Nothing is sent, and nothing else changes.
pub on_line-switches :
    (c : Client) (n : ℕ) (js : List Text) (name : Text)
    → Waits c n js
    → has_zero name ≡ false
    → 1 ≤ length name
    → length name + 9 < n
    → on_line true (typed "/switch" name) c
      ≡ ok (
          if any (λ j. str_eq j name) js
          then record c { active_channel = name }
          else notify (not_joined name) c)
unfolding decode_input on_command on_switch
on_line-switches c n js name v h some_name long =
    let (buff, size, e) = on_line-text true (typed "/switch" name) c n js v h (omega arith) in
    let found : search (cmp name) c.joined_chnls 0 c.joined_len
        ≡ ok (find_index (λ j. str_eq j name) 0 js) =
      ap (search (cmp name) c.joined_chnls 0) v.count
      ∙ search-Begins (cmp name) (λ j. str_eq j name) c.joined_chnls 0 js v.joined
          (All-cmp name js) in
    elim (joined-cases name js 0) [
      | inl (k, at, here) ↦
          e
          ∙ rw
              (
                get_command_arg-split (codes "/switch") name refl,
                not_zero name some_name,
                found,
                at,
                here,
              )
              (ap ok (
                clear-prompt (record c { buff = buff; active_channel = name }) n v.runs size
                ∙ ap (λ b. record c { buff = b; active_channel = name }) (sym v.cleared)))
      | inr (nowhere, absent) ↦
          e
          ∙ rw
              (
                get_command_arg-split (codes "/switch") name refl,
                not_zero name some_name,
                found,
                nowhere,
                absent,
              )
              (ap ok (
                clear-prompt (notify (not_joined name) (record c { buff = buff })) n v.runs size
                ∙ ap (λ b. notify (not_joined name) (record c { buff = b })) (sym v.cleared)))
    ]
