-- ===== src/Recent/Seen.antt =====
-- The table of ids as the list of the ids that were recorded.
use native.Mathlib.Nat.{mod-eq_of_lt}
use shell_chat_app_multi_ser.Base.{
  ℕ, zero, suc, ◌<◌, ◌%◌, ◌≡◌, refl, Bool, false, List, [], ◌∷◌, ◌++◌, ok, err, ◌∙◌, out_of_bounds,
  ◌==◌, ◌||◌, any, any-append, length, length-set, length-append, length-replicate, Starts,
  Starts-set_end, arith, ap,
}
use shell_chat_app_multi_ser.Recent.{Recent, max_ids, no_ids, has_id, record_id}

-- The table holds just these ids, in the order in which they came, and they are at most 1024.
pub record Remembers (r : Recent) (ids : List ℕ) : Type 0 where
  pub begins : Starts r.recent_ids ids
  pub count : r.num_ids ≡ length ids
  pub size : length r.recent_ids ≡ max_ids

abbrev pub among : ℕ → List ℕ → Bool
among id = any (λ k. k == id)

has_id-Starts :
    (xs ys : List ℕ) (id : ℕ) → Starts xs ys → has_id xs (length ys) id ≡ ok (among id ys)
unfolding has_id
has_id-Starts xs [] id s = refl
has_id-Starts [] (y ∷ ys) id s = absurd s
has_id-Starts (x ∷ xs) (y ∷ ys) id s = rw (s.0) (ground (arith, has_id-Starts xs ys id s.1))

pub no_ids-Remembers : Remembers no_ids []
no_ids-Remembers = record { begins = tt; count = refl; size = length-replicate {A = ℕ} max_ids 0 }

-- `has_id` tells exactly whether the id is among those remembered.
pub has_id-among :
    (r : Recent) (ids : List ℕ) (id : ℕ)
    → Remembers r ids
    → has_id r.recent_ids r.num_ids id ≡ ok (among id ids)
has_id-among r ids id m = rw m.count (has_id-Starts r.recent_ids ids id m.begins)

-- Recording an id while there is room adds it behind the others.
pub record_id-append :
    (r : Recent) (ids : List ℕ) (id : ℕ)
    → Remembers r ids
    → length ids < max_ids
    → Remembers (record_id r id) (ids ++ id ∷ [])
unfolding record_id
record_id-append r ids id m h =
    let e : r.num_ids % max_ids ≡ length ids = ap (λ k. k % max_ids) m.count ∙ mod-eq_of_lt h in
    record {
      begins = rw e (Starts-set_end r.recent_ids ids id m.begins (omega (arith, m.size)));
      count = omega (arith, m.count, length-append ids (id ∷ []));
      size = length-set r.recent_ids (r.num_ids % max_ids) id ∙ m.size;
    }

-- If fewer than 1024 ids are recorded, `has_id` after one more was recorded finds exactly those
-- before and the new one.
pub has_id-record_id :
    (r : Recent) (ids : List ℕ) (id k : ℕ)
    → Remembers r ids
    → length ids < max_ids
    → has_id (record_id r id).recent_ids (record_id r id).num_ids k ≡ ok (among k ids || (id == k))
has_id-record_id r ids id k m h =
    has_id-among (record_id r id) (ids ++ id ∷ []) k (record_id-append r ids id m h)
    ∙ rw (any-append (λ j. j == k) ids (id ∷ [])) (ground arith)

-- Once the counter has passed the length of the table, the search for an id that is not in the table
-- reads past its end.
pub has_id_past_end :
    (xs : List ℕ) (n id : ℕ)
    → length xs < n
    → among id xs ≡ false
    → has_id xs n id ≡ err out_of_bounds
unfolding has_id
has_id_past_end xs zero id h a = elim h [ ]
has_id_past_end [] (suc n) id h a = refl
has_id_past_end (x ∷ xs) (suc n) id h a =
    ground (arith, has_id_past_end xs n id (omega arith) (ground arith))
