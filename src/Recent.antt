-- ===== src/Recent.antt =====
-- The ids of the S2S says that a server has seen: `recent_ids[MAX_IDS]` and `num_ids` of `main`, and
-- `has_id`. The counter does not wrap.
pub mod Seen
use shell_chat_app_multi_ser.Base.{
  ℕ, zero, suc, ◌%◌, Bool, true, false, List, [], ◌∷◌, Result, ok, err, out_of_bounds, set,
  replicate, ◌==◌, if◌then◌else◌,
}

abbrev pub max_ids : ℕ
max_ids = 1024

pub record Recent : Type 0 where
  pub recent_ids : List ℕ
  pub num_ids : ℕ

abbrev pub no_ids : Recent
no_ids = record { recent_ids = replicate max_ids 0; num_ids = 0 }

-- `has_id(ids, ids_len, id)`
unfoldable pub has_id : List ℕ → ℕ → ℕ → Result Bool
has_id ids zero id = ok false
has_id [] (suc n) id = err out_of_bounds
has_id (k ∷ ids) (suc n) id = let rest = has_id ids n id in if k == id then ok true else rest

-- `recent_ids[num_ids++ % MAX_IDS] = id`
unfoldable pub record_id : Recent → ℕ → Recent
record_id r id = record {
  recent_ids = set r.recent_ids (r.num_ids % max_ids) id;
  num_ids = suc r.num_ids;
}
