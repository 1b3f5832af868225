-- ===== src/Cells.antt =====
-- C arrays of pointers: `T *list[size]` with an `int` beside it that counts the entries in use. The
-- loops of channels.c and helper_functions.c over such arrays, and `neat_remove`.
pub mod Holds
pub mod Search
pub mod Shift
use shell_chat_app_multi_ser.Base.{
  ℕ, zero, suc, ◌≡◌, Bool, true, false, Option, none, some, List, [], ◌∷◌, Result, ok, err, ◌>>=◌,
  null_deref, out_of_bounds, uninit_read, ℤ, pos, negsuc, rounds, decr, ltb, length, set,
  if◌then◌else◌, ◌==◌,
}

-- A pointer in an array: never assigned, NULL, or to an object.
pub data Slot (A : Type 0) : Type 0 where
  uninit : Slot A
  null : Slot A
  full : A → Slot A

abbrev pub Cells : Type 0 → Type 0
Cells A = List (Slot A)

-- What `neat_remove` leaves: the array, the count, the pointer that it returns, and whether
-- `list[i] = NULL` went past the end of the array.
pub record Removed (A : Type 0) : Type 0 where
  pub cells : Cells A
  pub count : ℤ
  pub ret : Slot A
  pub stray : Bool

module _ {A : Type 0} where
  -- A read through the pointer.
  abbrev pub deref : Slot A → Result A
  deref uninit = err uninit_read
  deref null = err null_deref
  deref (full a) = ok a

  -- `list[i] = slot`
  unfoldable pub write : Cells A → ℤ → Slot A → Result (Cells A)
  write cells (pos i) slot =
      if ltb i (length cells) then ok (set cells i slot) else err out_of_bounds
  write cells (negsuc i) slot = err out_of_bounds

  -- `for (int i = 0; i < n; i++) if (test(list[i])) return list[i]; return NULL;`, with the index at
  -- which the pointer was found. `i` is the index of the first cell given.
  unfoldable pub search : (A → Result Bool) → Cells A → ℕ → ℕ → Result (Option (ℕ × A))
  search test cells i zero = ok none
  search test [] i (suc n) = err out_of_bounds
  search test (c ∷ cells) i (suc n) = do
    a ← deref c
    hit ← test a
    (let rest = search test cells (suc i) n in if hit then ok (some (i, a)) else rest)

  -- The rest of its loop once `move` is set: `list[i-1] = list[i]`. The list starts at `i - 1`.
  unfoldable pub move_down : Cells A → ℕ → Result (Cells A)
  move_down cells zero = ok cells
  move_down [] (suc n) = err out_of_bounds
  move_down (hole ∷ []) (suc n) = err out_of_bounds
  move_down (hole ∷ c ∷ cells) (suc n) = do moved ← move_down (c ∷ cells) n; ok (c ∷ moved)

  -- Its loop before that. With `pos` given the entry is told by its index, otherwise by `cmp`.
  unfoldable pub remove_loop :
      (A → Result Bool) → Option ℤ → Cells A → ℕ → ℕ → Result (Cells A × Slot A)
  unfolding move_down
  remove_loop cmp position cells i zero = ok (cells, uninit)
  remove_loop cmp position [] i (suc n) = err out_of_bounds
  remove_loop cmp position (c ∷ cells) i (suc n) = do
    hit ← elim position [
      | none ↦ (do a ← deref c; cmp a)
      | some p ↦ ok (elim p [ pos k ↦ k == i | negsuc k ↦ false ])
    ]
    (let later = (do
      (cells', ret) ← remove_loop cmp position cells (suc i) n
      ok (c ∷ cells', ret)) in
        if hit then (do moved ← move_down (c ∷ cells) n; ok (moved, c)) else later)

  -- `list[i] = NULL` after the loop, with `i` the old count.
  unfoldable pub neat_remove : (A → Result Bool) → Option ℤ → Cells A → ℤ → Result (Removed A)
  unfolding remove_loop
  neat_remove cmp position cells n = do
    (cells', ret) ← remove_loop cmp position cells 0 (rounds n)
    ok (record {
      cells = set cells' (rounds n) null;
      count = decr n;
      ret = ret;
      stray = if ltb (rounds n) (length cells) then false else true;
    })
