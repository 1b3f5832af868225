-- ===== src/Client/Waiting.antt =====
-- A client that waits for a line, and what is common to its commands.
use Prim.Native.String.{String}
use shell_chat_app_multi_ser.Base.{
  ℕ, zero, suc, ◌≤◌, ◌<◌, ◌≡◌, refl, ap, ◌∙◌, Bool, true, false, ◌==◌, some, List, [], ◌∷◌, ◌++◌,
  length, replicate, get_elem?, any, leb, Text, codes, str_eq, ok, arith, All, append-nil,
  ◌>>=◌ as bind,
}
use shell_chat_app_multi_ser.Cells.Holds.{Begins}
use shell_chat_app_multi_ser.Client.{space, decode_input}
use shell_chat_app_multi_ser.Client.Requests.{}
use shell_chat_app_multi_ser.Client.Loop.{
  Client, max_joined, cmp, on_command, on_line, clear, prompt,
}
use shell_chat_app_multi_ser.Client.Lines.{read_line-string}

abbrev pub zeros : ℕ → List ℕ
zeros n = replicate n 0

-- A zero byte ends a string.
abbrev pub has_zero : Text → Bool
has_zero = any (λ c. c == 0)

-- The client waits for a line, with a cleared buffer of `n` bytes and `js` as the channels joined.
pub record Waits (c : Client) (n : ℕ) (js : List Text) : Type 0 where
  pub cleared : c.buff ≡ zeros n
  pub runs : c.logout ≡ false
  pub joined : Begins c.joined_chnls js
  pub count : c.joined_len ≡ length js
  pub size : length c.joined_chnls ≡ max_joined

get_elem?-replicate : (n k : ℕ) → k < n → get_elem? (zeros n) k ≡ some 0
get_elem?-replicate zero k h = elim h [ ]
get_elem?-replicate (suc n) zero h = refl
get_elem?-replicate (suc n) (suc k) h = get_elem?-replicate n k (omega arith)

length-zeros : (n : ℕ) → length (zeros n) ≡ n
length-zeros zero = refl
length-zeros (suc n) = ap suc (length-zeros n)

-- From a cleared buffer the line comes as it was typed.
pub on_line-text :
    (up : Bool) (line : Text) (c : Client) (n : ℕ) (js : List Text)
    → Waits c n js
    → has_zero line ≡ false
    → suc (length line) < n
    → (buff : List ℕ) × (length buff ≡ n)
      × (on_line up line c
          ≡ bind
              (on_command up line (decode_input line) (record c { buff = buff }))
              (λ r. ok (clear r.1 r.0)))
unfolding on_line
on_line-text up line c n js v h long =
    let (buff, e, text, size) =
      read_line-string line c.buff 0 h
        (rw v.cleared (get_elem?-replicate n (length line) (omega arith)))
        (rw v.cleared (omega (arith, length-zeros n))) in
    (buff, size ∙ ap length v.cleared ∙ length-zeros n, rw (e, text ∙ append-nil line) refl)

pub not_zero : (name : Text) → 1 ≤ length name → (length name == 0) ≡ false
not_zero name h = ground arith

pub lt→leb : (m n : ℕ) → m < n → leb m n ≡ true
lt→leb m n h = ground arith

pub All-cmp : (name : Text) (js : List Text) → All (λ j. cmp name j ≡ ok (str_eq j name)) js
unfolding cmp
All-cmp name [] = tt
All-cmp name (j ∷ js) = (refl, All-cmp name js)

pub clear-prompt :
    (c : Client) (n : ℕ)
    → c.logout ≡ false
    → length c.buff ≡ n
    → clear prompt c ≡ record c { buff = zeros n }
clear-prompt c n runs size = rw runs (ap (λ k. record c { buff = zeros k; logout = false }) size)

abbrev pub typed : String → Text → Text
typed command name = codes command ++ space ∷ name
