-- ===== src/Client/Lines.antt =====
-- Lines: what a line leaves in the buffer, and how a command is split.
use shell_chat_app_multi_ser.Base.{
  drop, ℕ, suc, ◌+◌, ◌<◌, ◌≡◌, refl, ap, ap₂, ◌∙◌, false, ◌==◌, none, some, List, [], ◌∷◌, ◌++◌,
  length, set, get_elem?, any, lt→ltb, Text, ok, arith, length-set, if◌then◌else◌,
}
use shell_chat_app_multi_ser.Client.{
  space, command_loop, found_arg, get_command_arg, c_string, put_line, read_line,
}

module _ (b c : ℕ) (word : Text) (h : any (λ x. x == b) (c ∷ word) ≡ false) where
  any-head : (c == b) ≡ false
  any-head = ground arith

  not_yet : (i : ℕ) → (if c == b then some (suc i) else none) ≡ none
  not_yet i = rw any-head refl

  any-tail : any (λ x. x == b) word ≡ false
  any-tail = ground arith

command_loop-some : (buf : Text) (i k : ℕ) → command_loop buf i (some k) ≡ (i + length buf, some k)
unfolding command_loop
command_loop-some [] i k = ap (λ n. (n, some k)) (omega arith)
command_loop-some (c ∷ buf) i k =
    command_loop-some buf (suc i) k ∙ ap (λ n. (n, some k)) (omega arith)

command_loop-word :
    (word arg : Text) (i : ℕ)
    → any (λ c. c == space) word ≡ false
    → command_loop (word ++ space ∷ arg) i none
      ≡ (i + suc (length word + length arg), some (i + suc (length word)))
unfolding command_loop
command_loop-word [] arg i h =
    command_loop-some arg (suc i) (suc i) ∙ ap₂ (λ n k. (n, some k)) (omega arith) (omega arith)
command_loop-word (c ∷ word) arg i h =
    ap (command_loop (word ++ space ∷ arg) (suc i)) (not_yet space c word h i)
    ∙ command_loop-word word arg (suc i) (any-tail space c word h)
    ∙ ap₂ (λ n k. (n, some k)) (omega arith) (omega arith)

drop-word : (word arg : Text) (c : ℕ) → drop (suc (length word)) (word ++ c ∷ arg) ≡ arg
drop-word [] arg c = refl
drop-word (x ∷ word) arg c = drop-word word arg c

-- A word without a space, and a space and a text behind it: the text is what `get_command_arg` returns,
-- with its length, whatever spaces it has itself.
pub get_command_arg-split :
    (word arg : Text)
    → any (λ c. c == space) word ≡ false
    → get_command_arg (word ++ space ∷ arg) ≡ (some arg, length arg)
unfolding get_command_arg
get_command_arg-split word arg h =
    let ends : command_loop (word ++ space ∷ arg) 0 none
        ≡ (suc (length word + length arg), some (suc (length word))) =
      command_loop-word word arg 0 h ∙ ap₂ (λ n k. (n, some k)) (omega arith) (omega arith) in
    ap (found_arg (word ++ space ∷ arg)) ends
    ∙ ap₂ (λ s n. (some s, n)) (drop-word word arg space) (omega arith)

length-put_line : (line : Text) (buff : List ℕ) → length (put_line line buff) ≡ length buff
length-put_line [] buff = refl
length-put_line (c ∷ line) [] = refl
length-put_line (c ∷ line) (x ∷ buff) = ap suc (length-put_line line buff)

put_line-string :
    (line : Text) (buff : List ℕ) (x : ℕ)
    → any (λ c. c == 0) line ≡ false
    → get_elem? buff (length line) ≡ some x
    → suc (length line) < length buff
    → c_string (set (put_line line buff) (suc (length line)) 0) ≡ line ++ c_string (x ∷ [])
put_line-string line [] x h e n = cc
put_line-string [] (y ∷ []) x h e n = absurd (omega arith)
put_line-string [] (y ∷ z ∷ buff) x h e n = ground arith
put_line-string (c ∷ line) (y ∷ buff) x h e n =
    rw (any-head 0 c line h)
      (ap (λ s. c ∷ s) (put_line-string line buff x (any-tail 0 c line h) e (omega arith)))

-- A line without zero bytes is written to the front of the buffer, if it is two bytes shorter at least,
-- and the string in the buffer is then the line and, if it is not zero, the byte that stood behind it.
pub read_line-string :
    (line : Text) (buff : List ℕ) (x : ℕ)
    → any (λ c. c == 0) line ≡ false
    → get_elem? buff (length line) ≡ some x
    → suc (length line) < length buff
    → (buff' : List ℕ) × (read_line line buff ≡ ok buff')
      × (c_string buff' ≡ line ++ c_string (x ∷ []))
      × (length buff' ≡ length buff)
unfolding read_line
read_line-string line buff x h e n = (
  set (put_line line buff) (suc (length line)) 0,
  rw (lt→ltb _ _ n) refl,
  put_line-string line buff x h e n,
  length-set (put_line line buff) (suc (length line)) 0 ∙ length-put_line line buff,
)
