-- ===== src/Cells/Holds.antt =====
-- What an array and its count stand for: the list of the objects that its first entries point to.
use shell_chat_app_multi_ser.Base.{
  ℕ, zero, suc, ◌≤◌, ◌<◌, ◌≡◌, refl, List, [], ◌∷◌, ◌++◌, ok, out_of_bounds, err, ℤ, pos, negsuc,
  length, set, lt→ltb, arith,
}
use shell_chat_app_multi_ser.Cells.{Cells, Slot, full, write}

module _ {A : Type 0} where
  abbrev pub Begins : Cells A → List A → Type 0
  Begins cells [] = Unit
  Begins [] (x ∷ xs) = ⊥
  Begins (c ∷ cells) (x ∷ xs) = (c ≡ full x) × Begins cells xs

  abbrev pub Holds : Cells A → ℤ → List A → Type 0
  Holds cells n xs = Begins cells xs × (n ≡ pos (length xs))

  pub Begins-length : (cells : Cells A) (xs : List A) → Begins cells xs → length xs ≤ length cells
  Begins-length cells [] b = omega arith
  Begins-length [] (x ∷ xs) b = absurd b
  Begins-length (c ∷ cells) (x ∷ xs) b = omega (arith, Begins-length cells xs b.1)

  -- A write behind the entries in use adds an entry.
  pub Begins-set_end :
      (cells : Cells A) (xs : List A) (x : A)
      → Begins cells xs
      → length xs < length cells
      → Begins (set cells (length xs) (full x)) (xs ++ x ∷ [])
  Begins-set_end [] xs x b h = elim h [ ]
  Begins-set_end (c ∷ cells) [] x b h = (refl, tt)
  Begins-set_end (c ∷ cells) (y ∷ ys) x b h = (b.0, Begins-set_end cells ys x b.1 (omega arith))

  -- A write to a later cell leaves the entries in use as they are.
  pub Begins-set_later :
      (cells : Cells A) (xs : List A) (i : ℕ) (s : Slot A)
      → Begins cells xs
      → length xs ≤ i
      → Begins (set cells i s) xs
  Begins-set_later cells [] i s b h = tt
  Begins-set_later [] (x ∷ xs) i s b h = absurd b
  Begins-set_later (c ∷ cells) (x ∷ xs) zero s b h = absurd (omega arith)
  Begins-set_later (c ∷ cells) (x ∷ xs) (suc i) s b h =
      (b.0, Begins-set_later cells xs i s b.1 (omega arith))

  pub write-ok :
      (cells : Cells A) (i : ℕ) (s : Slot A)
      → i < length cells
      → write cells (pos i) s ≡ ok (set cells i s)
  unfolding write
  write-ok cells i s h = rw (lt→ltb _ _ h)

  pub write-full :
      (cells : Cells A) (i : ℕ) (s : Slot A)
      → length cells ≤ i
      → write cells (pos i) s ≡ err out_of_bounds
  unfolding write
  write-full cells i s h = ground arith

  -- A write to the last entry in use replaces it.
  pub Begins-set_last :
      (cells : Cells A) (xs : List A) (x y : A)
      → Begins cells (xs ++ x ∷ [])
      → Begins (set cells (length xs) (full y)) (xs ++ y ∷ [])
  Begins-set_last [] [] x y b = absurd b
  Begins-set_last [] (z ∷ xs) x y b = absurd b
  Begins-set_last (c ∷ cells) [] x y b = (refl, tt)
  Begins-set_last (c ∷ cells) (z ∷ xs) x y b = (b.0, Begins-set_last cells xs x y b.1)

  pub write-negative :
      (cells : Cells A) (i : ℕ) (s : Slot A) → write cells (negsuc i) s ≡ err out_of_bounds
  unfolding write
  write-negative cells i s = refl
