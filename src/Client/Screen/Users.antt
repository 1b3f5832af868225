-- ===== src/Client/Screen/Users.antt =====
-- What is shown of a list of users.
use shell_chat_app_multi_ser.Base.{
  ℕ, suc, ◌+◌, ◌-◌, ◌*◌, ◌≤◌, ◌<◌, ◌≡◌, refl, ap, ap₂, sym, ◌∙◌, List, [], ◌∷◌, ◌++◌, append_assoc,
  append-nil, length, length-append, take, drop, replicate, lt→ltb, codes, Text, ok, arith, All,
  All-map,
}
use shell_chat_app_multi_ser.Duckchat.{channel_max}
use shell_chat_app_multi_ser.Packets.{text_who}
use shell_chat_app_multi_ser.Wire.{
  Bytes, zeros, field, clear_field, entries, int_bytes, socket_recv, encode_reply,
}
use shell_chat_app_multi_ser.Wire.Fields.{IsText, Fits, length-zeros, int_back, next_there}
use shell_chat_app_multi_ser.Wire.Padding.{drop-zeros, entries-padding, padding-received}
use shell_chat_app_multi_ser.Wire.Requests.{cleared}
use shell_chat_app_multi_ser.Client.Screen.{clear_stdout, print_user_list, Screen, on_datagram}
use shell_chat_app_multi_ser.Client.Screen.Shows.{
  visible, visible-append, visible-IsText, visible-zeros, visible-then, bytes_at-there,
}
use shell_chat_app_multi_ser.Client.Screen.Lists.{lines, length-entries, print_names-lines}

-- Every name on a line of its own.
abbrev pub name_lines : List Text → Text
name_lines [] = []
name_lines (name ∷ names) = codes "\n\t" ++ (name ++ name_lines names)

visible-lines :
    (n : ℕ) (names : List Text)
    → All IsText names
    → visible (lines (zeros n) names) ≡ name_lines names
visible-lines n [] h = refl
visible-lines n (name ∷ names) h =
    ap (λ x. codes "\n\t" ++ x)
      (visible-append (field 32 name (zeros n)) (lines (drop 32 (zeros n)) names)
        ∙ ap₂ (λ x y. x ++ y)
            (visible-append name (0 ∷ drop (suc (length name)) (take 32 (zeros n)))
              ∙ rw (visible-IsText name h.0, visible-zeros (suc (length name)) n 32)
                  (append-nil name))
            (ap (λ b. visible (lines b names)) (drop-zeros 32 n)
              ∙ visible-lines (n - 32) names h.1))

-- What the terminal shows of the users of a channel.
abbrev pub shown_who : Text → List Text → Text
shown_who channel names =
    replicate 50 8 ++ ((codes "All users in " ++ (channel ++ name_lines names)) ++ codes "\n> ")

-- What a client's buffer holds of the block that answers REQ_WHO.
received :
    (size block : ℕ) (channel : Text) (names : List Text)
    → Fits channel_max channel
    → All (λ s. length s < 28) names
    → 40 ≤ block
    → 36 + 32 * length names ≤ block
    → 40 + 32 * length names ≤ size
    → block ≤ size
    → (rest : Bytes) × (socket_recv size
          (encode_reply [] (text_who block (length names) channel names))
          (zeros size)
        ≡ int_bytes 2
          ++ (int_bytes (length names)
              ++ (clear_field channel_max channel ++ (entries (zeros block) names ++ rest))))
unfolding encode_reply
received size block channel names hc short some_room fits wide room =
    let c = clear_field channel_max channel in
    let shown = entries (zeros block) names in
    let front = int_bytes 2 ++ (int_bytes (length names) ++ c) in
    let size_c : length c ≡ 32 = cleared channel_max channel hc in
    let (xs, j, e, cut, all) = entries-padding block names short (omega arith) in
    let head : Bytes = front ++ xs in
    let long : length head ≡ 40 + length xs = omega (arith, length-append c xs) in
    let sent =
      padding-received size block head j block (omega (arith, long, cut)) room
        (omega (arith, long, all)) in
    let rest = zeros (size - (length head + j)) in
    let join : (zs : Bytes) → ((c ++ xs) ++ zeros j) ++ zs ≡ c ++ (shown ++ zs) = λ zs.
      append_assoc (c ++ xs) (zeros j) zs
      ∙ append_assoc c xs (zeros j ++ zs)
      ∙ ap (◌++◌ c) (sym (append_assoc xs (zeros j) zs))
      ∙ ap (λ l. c ++ (l ++ zs)) (sym e) in
    let structure : Bytes → Bytes = λ l. int_bytes 2 ++ (int_bytes (length names) ++ l) in
    (
      rest,
      ap (λ l. socket_recv size (take block (structure l)) (zeros size)) (sym (join (zeros block)))
          ∙ sent
          ∙ ap structure (join rest),
    )

-- A client that receives the answer to REQ_WHO, with a channel that fits its field and names that leave
-- four bytes of theirs, in a block that is too short for them by four bytes at most, into a buffer that
-- has room for it and for all names, shows the channel and every name, in order, on a line of its own.
-- It writes nothing to standard error. Zero bytes are not seen.
pub on_datagram-shows_who :
    (size block : ℕ) (before : Bytes) (channel : Text) (names : List Text)
    → Fits channel_max channel
    → All (λ s. length s < 28) names
    → All IsText names
    → 40 ≤ block
    → 36 + 32 * length names ≤ block
    → 40 + 32 * length names ≤ size
    → block ≤ size
    → length names < 2147483648
    → (s : Screen) × (on_datagram size
          (encode_reply before (text_who block (length names) channel names))
        ≡ ok s)
      × (visible s.out ≡ shown_who channel names)
      × (s.errors ≡ [])
unfolding on_datagram encode_reply clear_stdout print_user_list
on_datagram-shows_who size block before channel names hc short texts some_room fits wide room few =
    let c = clear_field channel_max channel in
    let n = length names in
    let shown = entries (zeros block) names in
    let size_c : length c ≡ 32 = cleared channel_max channel hc in
    let short' : All (λ s. length s < 32) names = All-map names (λ s h. omega arith) short in
    let size_n : length shown ≡ 32 * n =
      length-entries (zeros block) names short' (omega (arith, length-zeros block)) in
    let (rest, e) = received size block channel names hc short some_room fits wide room in
    let buffer = int_bytes 2 ++ (int_bytes n ++ (c ++ (shown ++ rest))) in
    let at40 : drop 40 buffer ≡ shown ++ rest = next_there channel_max channel (shown ++ rest) hc in
    let long : 40 + 32 * n ≤ length buffer =
      omega (arith, length-append c (shown ++ rest), length-append shown rest) in
    (
      record {
        out =
            clear_stdout 50
            ++ (((codes "All users in " ++ 0 ∷ []) ++ (c ++ lines (zeros block) names))
                ++ codes "\n> ");
        errors = [];
      },
      rw
          (
            e,
            bytes_at-there buffer c (shown ++ rest) 8 32 refl size_c (omega arith),
            int_back n (omega arith),
            lt→ltb _ _ few,
            print_names-lines buffer (zeros block) names 40 rest at40 short'
                (omega (arith, length-zeros block)) long,
          )
          refl,
      ap (λ x. replicate 50 8 ++ (codes "All users in " ++ x))
          (visible-append (c ++ lines (zeros block) names) (codes "\n> ")
            ∙ ap (λ x. x ++ codes "\n> ")
                (visible-then channel_max channel (lines (zeros block) names) hc.1
                  ∙ ap (λ x. channel ++ x) (visible-lines block names texts))),
      refl,
    )
