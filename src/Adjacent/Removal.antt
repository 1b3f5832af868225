-- ===== src/Adjacent/Removal.antt =====
-- `remove_adj_channel` on the list of subscriptions.
use shell_chat_app_multi_ser.Base.{
  ℕ, zero, suc, ◌≤◌, ◌≡◌, refl, ap, ◌∙◌, Bool, true, false, Option, some, List, ◌∷◌, map, Text,
  str_eq_refl, Result, ok, err, null_deref, pos, negsuc, rounds, incr, decr, length, set, take,
  length-take, take-init, length-map, any, init, ltb, ge→ltb, if◌then◌else◌, arith,
}
use shell_chat_app_multi_ser.Cells.{full, uninit, null, Removed, neat_remove}
use shell_chat_app_multi_ser.Cells.Shift.{neat_remove-negative}
use shell_chat_app_multi_ser.Adjacent.{Server, channel_cmp, has_channel_server, remove_adj_channel}
use shell_chat_app_multi_ser.Adjacent.Subs.{IsSound, subs, has_channel_server-any}

-- On a local array with one cell for each entry in use.
neat_remove-tight :
    {A : Type 0} (cmp : A → Result Bool) (xs : List A) (n : ℕ)
    → n ≤ length xs
    → (r : Removed A) × (neat_remove cmp (some (negsuc 0)) (map full (take n xs)) (pos n) ≡ ok r)
      × (r.count ≡ decr (pos n))
      × (r.stray ≡ true)
neat_remove-tight cmp xs n h =
    let size : length (map full (take n xs)) ≡ n =
      length-map (take n xs) full ∙ omega (arith, length-take n xs) in
    (
      record {
        cells = set (map full (take n xs)) n null;
        count = decr (pos n);
        ret = uninit;
        stray = if ltb n (length (map full (take n xs))) then false else true;
      },
      neat_remove-negative cmp 0 (map full (take n xs)) n (omega (arith, size)),
      refl,
      rw (ge→ltb n (length (map full (take n xs))) (omega (arith, size))) refl,
    )

incr-decr_pos : (n : ℕ) → incr (decr (pos n)) ≡ pos n
incr-decr_pos zero = refl
incr-decr_pos (suc n) = refl

-- Whatever channel it is asked to remove, `remove_adj_channel` only lowers the count of the
-- subscriptions by one, and it writes twice past the end of a local array.
pub remove_adj_channel_lem :
    (srvr : Server) (channel : Text)
    → IsSound srvr
    → remove_adj_channel srvr channel ≡ ok (record srvr { num_chnnls = decr srvr.num_chnnls }, 2)
unfolding remove_adj_channel
remove_adj_channel_lem srvr channel v =
    let n = rounds srvr.num_chnnls in
    let (r, e, c, s) =
      neat_remove-tight (channel_cmp channel) srvr.sub_channels n
        (omega (arith, v.names, v.room)) in
    let (r', e', c', s') =
      neat_remove-tight {A = Option ℕ} (λ _. err null_deref) srvr.timers n
        (omega (arith, v.slots, v.room)) in
    rw (v.count, e, c, incr-decr_pos n, e', c', s, s') refl

-- A sound server with at least one subscription loses its last one, whichever channel was named.
pub remove_adj_channel_drops_last :
    (srvr : Server) (channel : Text) (n : ℕ)
    → IsSound srvr
    → srvr.num_chnnls ≡ pos (suc n)
    → (srvr' : Server) × (remove_adj_channel srvr channel ≡ ok (srvr', 2))
      × IsSound srvr'
      × (subs srvr' ≡ init (subs srvr))
remove_adj_channel_drops_last srvr channel n v e = (
  record srvr { num_chnnls = decr srvr.num_chnnls },
  remove_adj_channel_lem srvr channel v,
  record {
    count = rw e refl;
    room = rw e (ground (arith, v.room, ap rounds e));
    names = v.names;
    slots = v.slots;
  },
  rw e (take-init srvr.sub_channels n (omega (arith, v.room, v.names, ap rounds e))),
)

any-init_head :
    (p : Text → Bool) (x y : Text) (xs : List Text) → p x ≡ true → any p (init (x ∷ y ∷ xs)) ≡ true
any-init_head p x y xs h = rw h

-- If `remove_adj_channel` is called, and succeeds, for the first of at least two subscriptions of a
-- sound server, the server is still subscribed to it.
pub remove_adj_channel_keeps_first :
    (srvr srvr' : Server) (channel other : Text) (more : List Text) (n strays : ℕ)
    → IsSound srvr
    → srvr.num_chnnls ≡ pos (suc n)
    → subs srvr ≡ channel ∷ other ∷ more
    → remove_adj_channel srvr channel ≡ ok (srvr', strays)
    → has_channel_server srvr' channel ≡ ok true
remove_adj_channel_keeps_first srvr srvr' channel other more n strays v e named removed =
    let (s, r, v', shorter) = remove_adj_channel_drops_last srvr channel n v e in
    let same : s ≡ srvr' = cc (r, removed) in
    rw (← same, has_channel_server-any s channel v', shorter, named, str_eq_refl channel) refl
