-- ===== src/Wire/Fields.antt =====
-- Fields: what is laid out is read back.
use native.Mathlib.Nat.{zero-add, suc-add}
use shell_chat_app_multi_ser.Base.{
  ℕ, zero, suc, ◌+◌, ◌*◌, ◌/◌, ◌%◌, ◌≤◌, ◌<◌, ◌≡◌, refl, ap, subst, ◌∙◌, false, ◌==◌, [], ◌∷◌, ◌++◌,
  append_assoc, any, length, length-append, take, length-take, drop, length-drop, drop-append, Text,
  ok, arith,
}
use shell_chat_app_multi_ser.Wire.{
  Bytes, int_bytes, field, clear_field, zeros, read_int, until_zero,
}

-- No byte of the text ends a C string.
abbrev pub IsText : Text → Type 0
IsText s = any (λ c. c == 0) s ≡ false

-- The text fits a `char[size]`.
abbrev pub Fits : ℕ → Text → Type 0
Fits size s = (length s < size) × IsText s

pub length-zeros : (n : ℕ) → length (zeros n) ≡ n
length-zeros zero = refl
length-zeros (suc n) = ap suc (length-zeros n)

pub until_zero-string : (s rest : Bytes) → IsText s → until_zero (s ++ 0 ∷ rest) ≡ ok s
until_zero-string [] rest h = refl
until_zero-string (c ∷ s) rest h = ground (arith, until_zero-string s rest)

pub length-field :
    (size : ℕ) (s before : Bytes)
    → length s < size
    → size ≤ length before
    → length (field size s before) ≡ size
length-field size s before h room =
    length-append s (0 ∷ drop (suc (length s)) (take size before))
    ∙ omega (arith, length-drop (suc (length s)) (take size before), length-take size before)

pub drop-field :
    (size : ℕ) (s before rest : Bytes)
    → length s < size
    → size ≤ length before
    → drop size (field size s before ++ rest) ≡ rest
drop-field size s before rest h room =
    subst (λ n. drop n (field size s before ++ rest) ≡ rest) (length-field size s before h room)
      (drop-append (field size s before) rest)

pub until_zero-field :
    (size : ℕ) (s before rest : Bytes) → IsText s → until_zero (field size s before ++ rest) ≡ ok s
until_zero-field size s before rest h =
    ap until_zero (append_assoc s (0 ∷ drop (suc (length s)) (take size before)) rest)
    ∙ until_zero-string s (drop (suc (length s)) (take size before) ++ rest) h

drop-nil : (n : ℕ) → drop {A = ℕ} n [] ≡ []
drop-nil zero = refl
drop-nil (suc n) = refl

pub drop-add : (m n : ℕ) (xs : Bytes) → drop n (drop m xs) ≡ drop (m + n) xs
drop-add zero n xs = rw zero-add refl
drop-add (suc m) n [] = rw (drop-nil n, drop-nil (suc m + n)) refl
drop-add (suc m) n (x ∷ xs) = rw (drop-add m n xs, suc-add) refl

pub int_back :
    (n : ℕ)
    → n < 4294967296
    → n % 256 + 256 * (n / 256 % 256) + 65536 * (n / 65536 % 256) + 16777216 * (n / 16777216 % 256)
      ≡ n
int_back n h = omega arith

pub read_int-int_bytes :
    (n : ℕ) (rest : Bytes) → n < 4294967296 → read_int (int_bytes n ++ rest) ≡ ok n
read_int-int_bytes n rest h = ap ok (int_back n h)

-- A field of a cleared structure and what stands behind it.
module _ (size : ℕ) (s rest : Bytes) (h : Fits size s) where
  pub text_there : until_zero (clear_field size s ++ rest) ≡ ok s
  text_there = until_zero-field size s (zeros size) rest h.1

  pub next_there : drop size (clear_field size s ++ rest) ≡ rest
  next_there = drop-field size s (zeros size) rest h.0 (omega (arith, length-zeros size))
