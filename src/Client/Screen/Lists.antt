-- ===== src/Client/Screen/Lists.antt =====
-- What is shown of a list of channels.
use shell_chat_app_multi_ser.Base.{
  ℕ, ◌+◌, ◌*◌, ◌≤◌, ◌<◌, ◌≡◌, refl, ap, sym, subst, ◌∙◌, List, [], ◌∷◌, ◌++◌, append_assoc, length,
  length-append, length-drop, drop, drop-append, replicate, lt→ltb, codes, Text, ok, arith, All,
}
use shell_chat_app_multi_ser.Packets.{text_list}
use shell_chat_app_multi_ser.Wire.{Bytes, field, entries, int_bytes, encode_reply}
use shell_chat_app_multi_ser.Wire.Fields.{length-field, drop-add, int_back}
use shell_chat_app_multi_ser.Client.Screen.{
  clear_stdout, print_names, print_channel_list, on_datagram,
}
use shell_chat_app_multi_ser.Client.Screen.Shows.{bytes_at-there, socket_recv-fits}

-- Every name on a line of its own, with all 32 bytes of its field.
abbrev pub lines : Bytes → List Text → Bytes
lines before [] = []
lines before (name ∷ names) = codes "\n\t" ++ (field 32 name before ++ lines (drop 32 before) names)

pub length-entries :
    (before : Bytes) (names : List Text)
    → All (λ s. length s < 32) names
    → 32 * length names ≤ length before
    → length (entries before names) ≡ 32 * length names
length-entries before [] h room = omega arith
length-entries before (name ∷ names) h room = omega (
  arith,
  length-append (field 32 name before) (entries (drop 32 before) names),
  length-field 32 name before h.0 (omega arith),
  length-entries (drop 32 before) names h.1 (omega (arith, length-drop 32 before)),
)

pub print_names-lines :
    (buffer before : Bytes) (names : List Text) (k : ℕ) (rest : Bytes)
    → drop k buffer ≡ entries before names ++ rest
    → All (λ s. length s < 32) names
    → 32 * length names ≤ length before
    → k + 32 * length names ≤ length buffer
    → print_names buffer k (length names) ≡ ok (lines before names)
unfolding print_names
print_names-lines buffer before [] k rest at h room fits = refl
print_names-lines buffer before (name ∷ names) k rest at h room fits =
    let first = field 32 name before in
    let later = entries (drop 32 before) names in
    let size : length first ≡ 32 = length-field 32 name before h.0 (omega arith) in
    let here : drop k buffer ≡ first ++ (later ++ rest) = at ∙ append_assoc first later rest in
    let next : drop (k + 32) buffer ≡ later ++ rest =
      sym (drop-add k 32 buffer)
      ∙ ap (drop 32) here
      ∙ subst (λ n. drop n (first ++ (later ++ rest)) ≡ later ++ rest) size
          (drop-append first (later ++ rest)) in
    rw
      (
        bytes_at-there buffer first (later ++ rest) k 32 here size (omega arith),
        print_names-lines buffer (drop 32 before) names (k + 32) rest next h.1
            (omega (arith, length-drop 32 before)) (omega arith),
      )
      refl

-- A client that receives a list of channels, with names that fit their fields, into a buffer that has
-- room for it shows every name, in order, on a line of its own, each followed by what its field held
-- in the server's block before. It writes nothing to standard error.
pub on_datagram-shows_list :
    (size : ℕ) (before : Bytes) (names : List Text)
    → All (λ s. length s < 32) names
    → 32 * length names ≤ length before
    → 8 + 32 * length names ≤ size
    → length names < 2147483648
    → on_datagram size (encode_reply before (text_list (length names) names))
      ≡ ok (record {
        out =
            replicate 50 8
            ++ (((codes "Existing Channels:" ++ 0 ∷ []) ++ lines before names) ++ codes "\n> ");
        errors = [];
      })
unfolding on_datagram encode_reply clear_stdout print_channel_list
on_datagram-shows_list size before names h room fits few =
    let shown = entries before names in
    let datagram = int_bytes 1 ++ (int_bytes (length names) ++ shown) in
    let size' : length shown ≡ 32 * length names = length-entries before names h room in
    let (rest, e) = socket_recv-fits size datagram (omega arith) in
    let long : 8 + 32 * length names ≤ length (datagram ++ rest) =
      omega (arith, length-append shown rest) in
    let printed : print_names (datagram ++ rest) 8 (length names) ≡ ok (lines before names) =
      print_names-lines (datagram ++ rest) before names 8 rest refl h room long in
    rw (e, int_back (length names) (omega arith), lt→ltb _ _ few, printed) refl
