-- ===== src/Cells/Shift.antt =====
-- `neat_remove` on an array of pointers, and the list that the array stands for afterwards.
use shell_chat_app_multi_ser.Base.{
  ℕ, zero, suc, ◌≤◌, ◌≡◌, refl, Bool, true, false, none, some, List, [], ◌∷◌, Result, ok, All,
  length, arith, if◌then◌else◌, erase_first, any, length-erase_first, ℤ, pos, decr, ltb, Bool-cases,
  inl, inr, set, negsuc, length-set, not,
}
use shell_chat_app_multi_ser.Cells.{
  full, Cells, Slot, null, uninit, move_down, remove_loop, neat_remove, Removed,
}
use shell_chat_app_multi_ser.Cells.Holds.{Begins, Begins-set_later, Holds}

module _ {A : Type 0} where
  -- Once an entry is found, the entries behind it move down by one.
  pub move_down-Begins :
      (hole : Slot A) (cells : Cells A) (xs : List A)
      → Begins cells xs
      → (moved : Cells A) × (move_down (hole ∷ cells) (length xs) ≡ ok moved)
        × Begins moved xs
        × (length moved ≡ suc (length cells))
  unfolding move_down
  move_down-Begins hole cells [] b = (hole ∷ cells, refl, tt, refl)
  move_down-Begins hole [] (x ∷ xs) b = absurd b
  move_down-Begins hole (c ∷ cells) (x ∷ xs) b =
      let (moved, e, b', l) = move_down-Begins c cells xs b.1 in
      (c ∷ moved, rw e, (b.0, b'), ground arith)

  -- The loop of `neat_remove`, called without a position, on a list in which an entry passes.
  pub remove_loop-Begins :
      (cmp : A → Result Bool) (p : A → Bool) (cells : Cells A) (i : ℕ) (xs : List A)
      → Begins cells xs
      → All (λ x. cmp x ≡ ok (p x)) xs
      → any p xs ≡ true
      → (moved : Cells A) × (ret : A) × (remove_loop cmp none cells i (length xs)
          ≡ ok (moved, full ret))
        × Begins moved (erase_first p xs)
        × (length moved ≡ length cells)
  unfolding remove_loop
  remove_loop-Begins cmp p cells i [] b t h = cc
  remove_loop-Begins cmp p [] i (x ∷ xs) b t h = absurd b
  remove_loop-Begins cmp p (c ∷ cells) i (x ∷ xs) b t h = elim (Bool-cases (p x)) [
    | inl hit ↦
        let (moved, e, b', l) = move_down-Begins c cells xs b.1 in
        (moved, x, rw (b.0, t.0, hit) (ground (arith, b.0)), ground arith, l)
    | inr miss ↦
        let (moved, ret, e, b', l) =
          remove_loop-Begins cmp p cells (suc i) xs b.1 t.1 (ground arith) in
        (c ∷ moved, ret, rw (b.0, t.0, miss, e) refl, ground arith, ground arith)
  ]

  -- Where no entry passes, the loop leaves the array as it is, and `ret` unassigned.
  pub remove_loop-absent :
      (cmp : A → Result Bool) (p : A → Bool) (cells : Cells A) (i : ℕ) (xs : List A)
      → Begins cells xs
      → All (λ x. cmp x ≡ ok (p x)) xs
      → any p xs ≡ false
      → remove_loop cmp none cells i (length xs) ≡ ok (cells, uninit)
  unfolding remove_loop
  remove_loop-absent cmp p cells i [] b t h = refl
  remove_loop-absent cmp p [] i (x ∷ xs) b t h = absurd b
  remove_loop-absent cmp p (c ∷ cells) i (x ∷ xs) b t h =
      rw (b.0, t.0)
        (ground (arith, remove_loop-absent cmp p cells (suc i) xs b.1 t.1 (ground arith)))

  -- A negative position is met by no index: the loop removes nothing.
  pub remove_loop-negative :
      (cmp : A → Result Bool) (k : ℕ) (cells : Cells A) (i n : ℕ)
      → n ≤ length cells
      → remove_loop cmp (some (negsuc k)) cells i n ≡ ok (cells, uninit)
  unfolding remove_loop
  remove_loop-negative cmp k cells i zero h = refl
  remove_loop-negative cmp k [] i (suc n) h = elim h [ ]
  remove_loop-negative cmp k (c ∷ cells) i (suc n) h =
      rw (remove_loop-negative cmp k cells (suc i) n (omega arith)) refl

  decr-length :
      (p : A → Bool) (xs : List A)
      → any p xs ≡ true
      → decr (pos (length xs)) ≡ pos (length (erase_first p xs))
  decr-length p xs h = rw (length-erase_first p xs, h)

  -- `neat_remove` takes out the first entry that passes, keeps the order of the others and lowers the
  -- count by one. It stays within the array unless the array was in use to the last cell.
  pub neat_remove-Holds :
      (cmp : A → Result Bool) (p : A → Bool) (cells : Cells A) (n : ℤ) (xs : List A)
      → Holds cells n xs
      → All (λ x. cmp x ≡ ok (p x)) xs
      → any p xs ≡ true
      → (r : Removed A) × (neat_remove cmp none cells n ≡ ok r)
        × Holds r.cells r.count (erase_first p xs)
        × (length r.cells ≡ length cells)
        × (r.stray ≡ not (ltb (length xs) (length cells)))
  unfolding neat_remove
  neat_remove-Holds cmp p cells n xs b t h =
      let (moved, ret, e, b', l) = remove_loop-Begins cmp p cells 0 xs b.0 t h in
      (
        record {
          cells = set moved (length xs) null;
          count = decr (pos (length xs));
          ret = full ret;
          stray = if ltb (length xs) (length cells) then false else true;
        },
        rw (b.1, e) refl,
        (
          Begins-set_later moved (erase_first p xs) (length xs) null b'
              (ground (arith, length-erase_first p xs)),
          decr-length p xs h,
        ),
        rw length-set l,
        ground arith,
      )

  -- With a negative position `neat_remove` takes nothing out and lowers the count.
  pub neat_remove-negative :
      (cmp : A → Result Bool) (k : ℕ) (cells : Cells A) (n : ℕ)
      → n ≤ length cells
      → neat_remove cmp (some (negsuc k)) cells (pos n)
        ≡ ok (record {
          cells = set cells n null;
          count = decr (pos n);
          ret = uninit;
          stray = if ltb n (length cells) then false else true;
        })
  unfolding neat_remove
  neat_remove-negative cmp k cells n h = rw (remove_loop-negative cmp k cells 0 n h) refl
