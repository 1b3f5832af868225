-- ===== src/Adjacent/Expiry.antt =====
-- The check for late timers of one adjacent server.
use shell_chat_app_multi_ser.Base.{
  ℕ, zero, suc, ◌+◌, ◌-◌, ◌≤◌, ◌<◌, ◌≡◌, refl, ap, sym, ◌∙◌, false, some, List, [], ◌∷◌, Text,
  str_eq_refl, ok, pos, rounds, sub_ℕ, exceeds, decr, take, get_elem?, Bool-cases, inl, inr, ltb,
  ltb→lt, if◌then◌else◌, arith,
}
use shell_chat_app_multi_ser.Adjacent.{
  Server, sub_channel, channel_elapse, min_2, expire_one, expire_loop, expire,
}
use shell_chat_app_multi_ser.Adjacent.Subs.{IsSound, subs, index_of}
use shell_chat_app_multi_ser.Adjacent.Removal.{remove_adj_channel_lem}
use shell_chat_app_multi_ser.Adjacent.Timers.{channel_elapse-set}

-- Channel `j` has a name, and the timer that its name is looked up at is set.
pub record TimedAt (srvr : Server) (j : ℕ) : Type 0 where
  pub name : Text
  pub position : ℕ
  pub time : ℕ
  pub named : get_elem? srvr.sub_channels j ≡ some name
  pub first : index_of name 0 (subs srvr) ≡ pos position
  pub set_at : get_elem? srvr.timers position ≡ some (some time)

-- Every subscription behind the first has its timer set.
abbrev pub IsTimed : Server → Type 0
IsTimed srvr = (j : ℕ) → 1 ≤ j → j < rounds srvr.num_chnnls → TimedAt srvr j

index_of-take :
    (name : Text) (xs : List Text) (i j m n : ℕ)
    → get_elem? xs j ≡ some name
    → j < m
    → j < n
    → index_of name i (take m xs) ≡ index_of name i (take n xs)
index_of-take name [] i j m n e hm hn = cc
index_of-take name (x ∷ xs) i j zero n e hm hn = elim hm [ ]
index_of-take name (x ∷ xs) i j (suc m) zero e hm hn = elim hn [ ]
index_of-take name (x ∷ xs) i zero (suc m) (suc n) e hm hn = ground (arith, str_eq_refl name)
index_of-take name (x ∷ xs) i (suc j) (suc m) (suc n) e hm hn =
    ground (arith, index_of-take name xs (suc i) j m n e (omega arith) (omega arith))

-- The same server with `m` subscriptions.
abbrev cut : Server → ℕ → Server
cut srvr m = record srvr { num_chnnls = pos m }

cut-IsSound :
    (srvr : Server) (m : ℕ) → IsSound srvr → m ≤ rounds srvr.num_chnnls → IsSound (cut srvr m)
cut-IsSound srvr m v h = record {
  count = refl;
  room = omega (arith, v.room);
  names = v.names;
  slots = v.slots;
}

sub_channel-some :
    (srvr : Server) (j : ℕ) (name : Text)
    → get_elem? srvr.sub_channels j ≡ some name
    → sub_channel srvr j ≡ ok name
unfolding sub_channel
sub_channel-some srvr j name e = ground arith

expire_one-timed :
    (now j m : ℕ) (srvr : Server) (at : TimedAt srvr j)
    → IsSound srvr
    → m ≤ rounds srvr.num_chnnls
    → j < m
    → expire_one now j (cut srvr m) ≡ (
        if exceeds (sub_ℕ now at.time) min_2
        then ok (record srvr { num_chnnls = decr (pos m) }, 2)
        else ok (cut srvr m, 0))
unfolding expire_one
expire_one-timed now j m srvr at v hm hj =
    let elapsed : channel_elapse now (cut srvr m) at.name ≡ ok (sub_ℕ now at.time) =
      channel_elapse-set now at.time (cut srvr m) at.name at.position (cut-IsSound srvr m v hm)
        (index_of-take at.name srvr.sub_channels 0 j m (rounds srvr.num_chnnls) at.named hj
            (omega arith)
          ∙ at.first)
        at.set_at in
    rw
      (
        sub_channel-some (cut srvr m) j at.name at.named,
        elapsed,
        remove_adj_channel_lem (cut srvr m) at.name (cut-IsSound srvr m v hm),
      )
      refl

expire_loop-total :
    (fuel now j m strays : ℕ) (srvr : Server)
    → IsSound srvr
    → IsTimed srvr
    → 1 ≤ j
    → m ≤ rounds srvr.num_chnnls
    → 0 < fuel
    → m < fuel + j
    → (m' : ℕ) × (strays' : ℕ) × (expire_loop fuel now j (cut srvr m) strays
        ≡ ok (cut srvr m', strays'))
      × (m' ≤ m)
unfolding expire_loop
expire_loop-total zero now j m strays srvr v t hj hm h0 hf = elim h0 [ ]
expire_loop-total (suc fuel) now j m strays srvr v t hj hm h0 hf = elim (Bool-cases (ltb j m)) [
  | inr done ↦ (m, strays, rw done refl, omega arith)
  | inl more ↦
      let below : j < m = ltb→lt j m more in
      let at = t j hj (omega arith) in
      elim (Bool-cases (exceeds (sub_ℕ now at.time) min_2)) [
        | inr fresh ↦
            let (m', strays', e, h) =
              expire_loop-total fuel now (suc j) m (strays + 0) srvr v t (omega arith) hm
                (omega arith) (omega arith) in
            (m', strays', rw (more, expire_one-timed now j m srvr at v hm below, fresh) e, h)
        | inl late ↦
            let (m', strays', e, h) =
              expire_loop-total fuel now (suc j) (m - 1) (strays + 2) srvr v t (omega arith)
                (omega arith) (omega arith) (omega arith) in
            (
              m',
              strays',
              rw (more, expire_one-timed now j m srvr at v hm below, late, decr_below below) e,
              omega arith,
            )
      ]
]
  where
    decr_below : {j m : ℕ} → j < m → decr (pos m) ≡ pos (m - 1)
    decr_below {j} {m} h = ground arith

cut_self : (srvr : Server) → IsSound srvr → cut srvr (rounds srvr.num_chnnls) ≡ srvr
cut_self srvr v = λ i. record srvr { num_chnnls = sym v.count i }

expire-cut :
    (now : ℕ) (srvr : Server)
    → IsSound srvr
    → expire now srvr
      ≡ expire_loop (suc (rounds srvr.num_chnnls)) now 1 (cut srvr (rounds srvr.num_chnnls)) 0
unfolding expire
expire-cut now srvr v =
    ap (λ s. expire_loop (suc (rounds srvr.num_chnnls)) now 1 s 0) (sym (cut_self srvr v))

-- For a sound server whose timers behind the first subscription are set, the check for late timers
-- ends with its fuel unspent and without a fault: it leaves the server with the same arrays and at
-- most as many subscriptions.
pub expire-total :
    (now : ℕ) (srvr : Server)
    → IsSound srvr
    → IsTimed srvr
    → (m : ℕ) × (strays : ℕ) × (expire now srvr ≡ ok (record srvr { num_chnnls = pos m }, strays))
      × (m ≤ rounds srvr.num_chnnls)
expire-total now srvr v t =
    let (m, strays, e, h) =
      expire_loop-total (suc (rounds srvr.num_chnnls)) now 1 (rounds srvr.num_chnnls) 0 srvr v t
        (omega arith) (omega arith) (omega arith) (omega arith) in
    (m, strays, expire-cut now srvr v ∙ e, h)

not-exceeds : (now t : ℕ) → now ≤ t + min_2 → exceeds (sub_ℕ now t) min_2 ≡ false
not-exceeds now t h = ground arith

expire_loop-renewed :
    (fuel now j strays : ℕ) (srvr : Server)
    → IsSound srvr
    → (t : IsTimed srvr)
    → ((i : ℕ) (low : 1 ≤ i) (high : i < rounds srvr.num_chnnls)
        → now ≤ (t i low high).time + min_2)
    → 1 ≤ j
    → 0 < fuel
    → rounds srvr.num_chnnls < fuel + j
    → expire_loop fuel now j (cut srvr (rounds srvr.num_chnnls)) strays
      ≡ ok (cut srvr (rounds srvr.num_chnnls), strays)
unfolding expire_loop
expire_loop-renewed zero now j strays srvr v t r hj h0 hf = elim h0 [ ]
expire_loop-renewed (suc fuel) now j strays srvr v t r hj h0 hf =
    let n = rounds srvr.num_chnnls in
    elim (Bool-cases (ltb j n)) [
      | inr done ↦ rw done refl
      | inl more ↦
          let below : j < n = ltb→lt j n more in
          let at = t j hj below in
          rw
            (
              more,
              expire_one-timed now j n srvr at v (omega arith) below,
              not-exceeds now at.time (r j hj below),
              expire_loop-renewed fuel now (suc j) (strays + 0) srvr v t r (omega arith)
                  (omega arith) (omega arith),
            )
            (ap (λ k. ok (cut srvr n, k)) (omega arith))
    ]

-- A sound server whose timers behind the first subscription are set, and at most two minutes old,
-- keeps all its subscriptions in the check for late timers.
pub expire-renewed :
    (now : ℕ) (srvr : Server)
    → IsSound srvr
    → (t : IsTimed srvr)
    → ((i : ℕ) (low : 1 ≤ i) (high : i < rounds srvr.num_chnnls)
        → now ≤ (t i low high).time + min_2)
    → expire now srvr ≡ ok (srvr, 0)
expire-renewed now srvr v t r =
    expire-cut now srvr v
    ∙ expire_loop-renewed (suc (rounds srvr.num_chnnls)) now 1 0 srvr v t r (omega arith)
        (omega arith) (omega arith)
    ∙ ap (λ s. ok (s, 0)) (cut_self srvr v)
