-- ===== src/Cells/Search.antt =====
-- The search loop over an array of pointers, on the list that the array stands for.
use shell_chat_app_multi_ser.Base.{
  find_first, get_elem?, ◌+◌, ◌<◌, true, inl, inr, Bool-cases, ap, ℕ, suc, ◌≡◌, refl, Bool, Option,
  none, some, List, [], ◌∷◌, Result, ok, All, length, arith, if◌then◌else◌,
}
use shell_chat_app_multi_ser.Cells.{Cells, search}
use shell_chat_app_multi_ser.Cells.Holds.{Begins}

module _ {A : Type 0} where
  -- The first entry that passes the test, with its index; `i` is the index of the head.
  abbrev pub find_index : (A → Bool) → ℕ → List A → Option (ℕ × A)
  find_index p i [] = none
  find_index p i (x ∷ xs) = let rest = find_index p (suc i) xs in if p x then some (i, x) else rest

  pub search-Begins :
      (test : A → Result Bool) (p : A → Bool) (cells : Cells A) (i : ℕ) (xs : List A)
      → Begins cells xs
      → All (λ x. test x ≡ ok (p x)) xs
      → search test cells i (length xs) ≡ ok (find_index p i xs)
  unfolding search
  search-Begins test p cells i [] b t = refl
  search-Begins test p [] i (x ∷ xs) b t = absurd b
  search-Begins test p (c ∷ cells) i (x ∷ xs) b t =
      rw (b.0, t.0) (ground (arith, search-Begins test p cells (suc i) xs b.1 t.1))

  -- The first entry that passes the test has an index, at which it stands.
  pub find_index-first :
      (p : A → Bool) (i : ℕ) (xs : List A) (x : A)
      → find_first p xs ≡ some x
      → (k : ℕ) × (find_index p i xs ≡ some (i + k, x))
        × (get_elem? xs k ≡ some x)
        × (k < length xs)
        × (p x ≡ true)
  find_index-first p i [] x e = cc
  find_index-first p i (y ∷ xs) x e = elim (Bool-cases (p y)) [
    | inl hit ↦
        let same : y ≡ x = ground arith in
        (
          0,
          rw (hit, same) (ap (λ n. some (n, x)) (omega arith)),
          ap some same,
          omega arith,
          rw same at hit,
        )
    | inr miss ↦
        let (k, found, at, within, hit) = find_index-first p (suc i) xs x (ground arith) in
        (
          suc k,
          rw (miss, found) (ap (λ n. some (n, x)) (omega arith)),
          at,
          omega (arith, within),
          hit,
        )
  ]

  pub find_index-none :
      (p : A → Bool) (i : ℕ) (xs : List A) → find_first p xs ≡ none → find_index p i xs ≡ none
  find_index-none p i [] e = refl
  find_index-none p i (y ∷ xs) e = ground (arith, find_index-none p (suc i) xs)
