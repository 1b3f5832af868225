-- ===== src/Client/Screen/Shows.antt =====
-- What is shown of a reply.
use shell_chat_app_multi_ser.Base.{
  ℕ, zero, suc, ◌+◌, ◌≤◌, ◌≡◌, refl, ap, sym, subst, ◌∙◌, true, not, ◌==◌, [], ◌∷◌, ◌++◌,
  append_assoc, append-nil, keep, length, length-append, take, drop, drop-append, replicate, leb,
  codes, Text, ok, arith,
}
use shell_chat_app_multi_ser.Duckchat.{username_max, channel_max, say_max}
use shell_chat_app_multi_ser.Packets.{text_say}
use shell_chat_app_multi_ser.Wire.{Bytes, zeros, clear_field, int_bytes, socket_recv, encode_reply}
use shell_chat_app_multi_ser.Wire.Fields.{IsText, Fits, drop-add}
use shell_chat_app_multi_ser.Wire.Requests.{take_all, cleared}
use shell_chat_app_multi_ser.Client.Screen.{
  bytes_at, clear_stdout, say_text_output, Screen, on_datagram,
}

-- What can be seen of what is written: zero bytes cannot.
abbrev pub visible : Bytes → Text
visible = keep (λ c. not (c == 0))

pub visible-append : (xs ys : Bytes) → visible (xs ++ ys) ≡ visible xs ++ visible ys
visible-append [] ys = refl
visible-append (x ∷ xs) ys = ground (arith, visible-append xs ys)

pub visible-IsText : (s : Text) → IsText s → visible s ≡ s
visible-IsText [] h = refl
visible-IsText (c ∷ s) h = ground (arith, visible-IsText s)

pub visible-zeros : (k n m : ℕ) → visible (drop k (take m (zeros n))) ≡ []
visible-zeros zero zero zero = refl
visible-zeros zero zero (suc m) = refl
visible-zeros zero (suc n) zero = refl
visible-zeros zero (suc n) (suc m) = visible-zeros zero n m
visible-zeros (suc k) zero zero = refl
visible-zeros (suc k) zero (suc m) = refl
visible-zeros (suc k) (suc n) zero = refl
visible-zeros (suc k) (suc n) (suc m) = visible-zeros k n m

-- A cleared field shows its text.
pub visible-clear_field : (size : ℕ) (s : Text) → IsText s → visible (clear_field size s) ≡ s
visible-clear_field size s h =
    visible-append s (0 ∷ drop (suc (length s)) (take size (zeros size)))
    ∙ rw (visible-IsText s h, visible-zeros (suc (length s)) size size) (append-nil s)

take-append : (xs ys : Bytes) → take (length xs) (xs ++ ys) ≡ xs
take-append [] ys = refl
take-append (x ∷ xs) ys = ap (◌∷◌ x) (take-append xs ys)

pub bytes_at-there :
    (buffer xs ys : Bytes) (k n : ℕ)
    → drop k buffer ≡ xs ++ ys
    → length xs ≡ n
    → k + n ≤ length buffer
    → bytes_at buffer k n ≡ ok xs
bytes_at-there buffer xs ys k n at size room =
    let fits : leb (k + n) (length buffer) ≡ true = ground arith in
    rw (fits, at, ← size) (ap ok (take-append xs ys))

say_text_output-fields :
    (buffer channel username text rest : Bytes)
    → drop 4 buffer ≡ channel ++ (username ++ (text ++ rest))
    → length channel ≡ 32
    → length username ≡ 32
    → length text ≡ 64
    → 132 ≤ length buffer
    → say_text_output buffer 4 36 68
      ≡ ok (
          codes "["
          ++ (channel ++ (codes "]" ++ (codes "[" ++ (username ++ (codes "]: " ++ text))))))
unfolding say_text_output
say_text_output-fields buffer c u t rest at hc hu ht room =
    let at36 : drop 36 buffer ≡ u ++ (t ++ rest) =
      sym (drop-add 4 32 buffer)
      ∙ ap (drop 32) at
      ∙ subst (λ n. drop n (c ++ (u ++ (t ++ rest))) ≡ u ++ (t ++ rest)) hc
          (drop-append c (u ++ (t ++ rest))) in
    let at68 : drop 68 buffer ≡ t ++ rest =
      sym (drop-add 36 32 buffer)
      ∙ ap (drop 32) at36
      ∙ subst (λ n. drop n (u ++ (t ++ rest)) ≡ t ++ rest) hu (drop-append u (t ++ rest)) in
    rw
      (
        bytes_at-there buffer c (u ++ (t ++ rest)) 4 32 at hc (omega arith),
        bytes_at-there buffer u (t ++ rest) 36 32 at36 hu (omega arith),
        bytes_at-there buffer t rest 68 64 at68 ht (omega arith),
      )
      refl

pub visible-then :
    (size : ℕ) (s : Text) (more : Bytes)
    → IsText s
    → visible (clear_field size s ++ more) ≡ s ++ visible more
visible-then size s more h =
    visible-append (clear_field size s) more
    ∙ ap (λ x. x ++ visible more) (visible-clear_field size s h)

-- A datagram that fits the buffer stands at its front.
pub socket_recv-fits :
    (size : ℕ) (datagram : Bytes)
    → length datagram ≤ size
    → (rest : Bytes) × (socket_recv size datagram (zeros size) ≡ datagram ++ rest)
unfolding socket_recv
socket_recv-fits size datagram h =
    (drop (length datagram) (zeros size), rw (take_all size datagram h) refl)

-- What the terminal shows of a say: fifty steps back, channel and name in brackets, the text and a prompt.
abbrev pub shown_say : Text → Text → Text → Text
shown_say channel username text =
    replicate 50 8
    ++ ((codes "[" ++ (channel ++ (codes "][" ++ (username ++ (codes "]: " ++ text)))))
        ++ codes "\n> ")

abbrev say_bytes : Bytes → Bytes → Bytes → Bytes
say_bytes c u t = codes "[" ++ (c ++ (codes "]" ++ (codes "[" ++ (u ++ (codes "]: " ++ t)))))

visible-say_bytes :
    (channel username text : Text)
    → IsText channel
    → IsText username
    → IsText text
    → visible (
        say_bytes
          (clear_field channel_max channel)
          (clear_field username_max username)
          (clear_field say_max text))
      ≡ codes "[" ++ (channel ++ (codes "][" ++ (username ++ (codes "]: " ++ text))))
visible-say_bytes channel username text hc hu ht =
    ap (λ x. 91 ∷ x)
      (visible-then channel_max channel _ hc
        ∙ ap (λ x. channel ++ (93 ∷ 91 ∷ x))
            (visible-then username_max username _ hu
              ∙ ap (λ x. username ++ (codes "]: " ++ x)) (visible-clear_field say_max text ht)))

-- A client that receives a say, with texts that fit their fields, into a buffer of at least 132 bytes
-- shows channel, username and text, and writes nothing to standard error. Zero bytes are not seen.
pub on_datagram-shows_say :
    (size : ℕ) (before : Bytes) (channel username text : Text)
    → Fits channel_max channel
    → Fits username_max username
    → Fits say_max text
    → 132 ≤ size
    → (s : Screen) × (on_datagram size (encode_reply before (text_say channel username text))
        ≡ ok s)
      × (visible s.out ≡ shown_say channel username text)
      × (s.errors ≡ [])
unfolding on_datagram encode_reply clear_stdout
on_datagram-shows_say size before channel username text hc hu ht room =
    let c = clear_field channel_max channel in
    let u = clear_field username_max username in
    let t = clear_field say_max text in
    let datagram = int_bytes 0 ++ (c ++ (u ++ t)) in
    let (rest, e) = socket_recv-fits size datagram (
      omega (
        arith,
        length-append c (u ++ t),
        length-append u t,
        cleared channel_max channel hc,
        cleared username_max username hu,
        cleared say_max text ht,
      )) in
    let at : drop 4 (datagram ++ rest) ≡ c ++ (u ++ (t ++ rest)) =
      append_assoc c (u ++ t) rest ∙ ap (λ x. c ++ x) (append_assoc u t rest) in
    let long : 132 ≤ length (datagram ++ rest) = omega (
      arith,
      length-append (c ++ (u ++ t)) rest,
      length-append c (u ++ t),
      length-append u t,
      cleared channel_max channel hc,
      cleared username_max username hu,
      cleared say_max text ht,
    ) in
    (
      record { out = clear_stdout 50 ++ (say_bytes c u t ++ codes "\n> "); errors = [] },
      rw
          (
            e,
            say_text_output-fields (datagram ++ rest) c u t rest at (cleared channel_max channel hc)
                (cleared username_max username hu) (cleared say_max text ht) long,
          )
          refl,
      ap (λ x. replicate 50 8 ++ x)
          (visible-append (say_bytes c u t) (codes "\n> ")
            ∙ ap (λ x. x ++ codes "\n> ") (visible-say_bytes channel username text hc.1 hu.1 ht.1)),
      refl,
    )
