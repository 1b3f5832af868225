-- ===== src/Wire/Padding.antt =====
-- Padding: zero bytes at the end of a block, which may be cut off and stand in a cleared buffer all the
-- same.
use Prim.Native.Nat.{min}
use shell_chat_app_multi_ser.Base.{
  ℕ, zero, suc, ◌+◌, ◌-◌, ◌*◌, ◌≤◌, ◌<◌, ◌≡◌, refl, ap, ap₂, sym, ◌∙◌, List, [], ◌∷◌, ◌++◌,
  append_assoc, append-nil, length, length-append, take, drop, Text, All, arith,
}
use shell_chat_app_multi_ser.Wire.{Bytes, zeros, field, entries, socket_recv}
use shell_chat_app_multi_ser.Wire.Fields.{length-zeros}
use shell_chat_app_multi_ser.Wire.Requests.{take_all}

pub drop-zeros : (k n : ℕ) → drop k (zeros n) ≡ zeros (n - k)
drop-zeros zero n = let e : n ≡ n - 0 = omega arith in ap zeros e
drop-zeros (suc k) zero = let e : 0 ≡ 0 - suc k = omega arith in ap zeros e
drop-zeros (suc k) (suc n) =
    let e : n - k ≡ suc n - suc k = omega arith in drop-zeros k n ∙ ap zeros e

take-zeros : (k n : ℕ) → take k (zeros n) ≡ zeros (min k n)
take-zeros zero n = let e : 0 ≡ min 0 n = omega arith in ap zeros e
take-zeros (suc k) zero = let e : 0 ≡ min (suc k) 0 = omega arith in ap zeros e
take-zeros (suc k) (suc n) =
    let e : suc (min k n) ≡ min (suc k) (suc n) = omega arith in
    ap (◌∷◌ 0) (take-zeros k n) ∙ ap zeros e

zeros-append : (m n : ℕ) → zeros m ++ zeros n ≡ zeros (m + n)
zeros-append zero n = let e : n ≡ 0 + n = omega arith in ap zeros e
zeros-append (suc m) n =
    let e : suc (m + n) ≡ suc m + n = omega arith in ap (◌∷◌ 0) (zeros-append m n) ∙ ap zeros e

take-behind :
    (n : ℕ) (xs ys : Bytes) → length xs ≤ n → take n (xs ++ ys) ≡ xs ++ take (n - length xs) ys
take-behind n [] ys h = let e : n ≡ n - 0 = omega arith in ap (λ k. take k ys) e
take-behind zero (x ∷ xs) ys h = elim h [ ]
take-behind (suc n) (x ∷ xs) ys h =
    let e : n - length xs ≡ suc n - suc (length xs) = omega arith in
    ap (◌∷◌ x) (take-behind n xs ys (omega arith) ∙ ap (λ k. xs ++ take k ys) e)

-- A block that ends with zero bytes, of which `block` bytes are sent, comes as if all were, if at most
-- zero bytes are cut off and the buffer has room.
pub padding-received :
    (size block : ℕ) (xs : Bytes) (j k : ℕ)
    → length xs ≤ block
    → block ≤ size
    → length xs + j ≤ size
    → socket_recv size (take block ((xs ++ zeros j) ++ zeros k)) (zeros size)
      ≡ (xs ++ zeros j) ++ zeros (size - (length xs + j))
unfolding socket_recv
padding-received size block xs j k h room room' =
    let m = min (block - length xs) (j + k) in
    let sent : take block ((xs ++ zeros j) ++ zeros k) ≡ xs ++ zeros m =
      ap (take block) (append_assoc xs (zeros j) (zeros k) ∙ ap (◌++◌ xs) (zeros-append j k))
      ∙ take-behind block xs (zeros (j + k)) h
      ∙ ap (◌++◌ xs) (take-zeros (block - length xs) (j + k)) in
    let size_sent : length (xs ++ zeros m) ≡ length xs + m =
      omega (arith, length-append xs (zeros m), length-zeros m) in
    let whole : take size (xs ++ zeros m) ≡ xs ++ zeros m =
      take_all size (xs ++ zeros m) (omega (arith, size_sent)) in
    let same : m + (size - length (xs ++ zeros m)) ≡ j + (size - (length xs + j)) =
      omega (arith, size_sent) in
    rw
      (
        sent,
        whole,
        drop-zeros (length (xs ++ zeros m)) size,
        append_assoc xs (zeros m) (zeros (size - length (xs ++ zeros m))),
        zeros-append m (size - length (xs ++ zeros m)),
        same,
        append_assoc xs (zeros j) (zeros (size - (length xs + j))),
        zeros-append j (size - (length xs + j)),
      )
      refl

field-zeros :
    (name : Text) (n : ℕ)
    → length name < 28
    → 32 ≤ n
    → field 32 name (zeros n) ≡ (name ++ zeros (28 - length name)) ++ zeros 4
field-zeros name n short room =
    let k = 28 - length name in
    let cut : min 32 n ≡ 32 = omega arith in
    let count : suc (32 - suc (length name)) ≡ k + 4 = omega arith in
    ap (λ z. name ++ 0 ∷ drop (suc (length name)) z) (take-zeros 32 n ∙ ap zeros cut)
    ∙ ap (λ z. name ++ 0 ∷ z) (drop-zeros (suc (length name)) 32)
    ∙ ap (λ i. name ++ zeros i) count
    ∙ ap (◌++◌ name) (sym (zeros-append k 4))
    ∙ sym (append_assoc name (zeros k) (zeros 4))

-- The entries of a cleared block end with four zero bytes, if there is one, and the names leave them.
pub entries-padding :
    (n : ℕ) (names : List Text)
    → All (λ s. length s < 28) names
    → 32 * length names ≤ n
    → (xs : Bytes) × (j : ℕ) × (entries (zeros n) names ≡ xs ++ zeros j)
      × (length xs ≤ 32 * length names - 4)
      × (length xs + j ≡ 32 * length names)
entries-padding n [] h room = ([], 0, refl, omega arith, omega arith)
entries-padding n (name ∷ []) h room =
    let k = 28 - length name in
    (
      name ++ zeros k,
      4,
      append-nil (field 32 name (zeros n)) ∙ field-zeros name n h.0 (omega arith),
      omega (arith, length-append name (zeros k), length-zeros k, h.0),
      omega (arith, length-append name (zeros k), length-zeros k, h.0),
    )
entries-padding n (name ∷ next ∷ names) h room =
    let (xs, j, e, short, all) = entries-padding (n - 32) (next ∷ names) h.1 (omega arith) in
    let k = 28 - length name in
    let first = (name ++ zeros k) ++ zeros 4 in
    let size : length first ≡ 32 = omega (
      arith,
      length-append (name ++ zeros k) (zeros 4),
      length-append name (zeros k),
      length-zeros k,
      h.0,
    ) in
    (
      first ++ xs,
      j,
      ap₂ (λ f z. f ++ entries z (next ∷ names)) (field-zeros name n h.0 (omega arith))
            (drop-zeros 32 n)
          ∙ ap (◌++◌ first) e
          ∙ sym (append_assoc first xs (zeros j)),
      omega (arith, length-append first xs, size, short),
      omega (arith, length-append first xs, size, all),
    )
