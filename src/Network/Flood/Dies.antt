-- ===== src/Network/Flood/Dies.antt =====
-- Dies: a say between servers comes to an end, whichever way the servers are connected.
use native.Mathlib.Nat.{mul-suc, mul-le-mul_left}
use shell_chat_app_multi_ser.Base.{
  ℕ, ◌+◌, ◌*◌, ◌≤◌, ◌<◌, ◌≡◌, refl, ap, ap₂, subst, ◌∙◌, true, false, Bool-cases, inl, inr, List,
  [], ◌∷◌, ◌++◌, length, length-append, take, any-append, ◌==◌, All, arith, Starts,
}
use shell_chat_app_multi_ser.Duckchat.{Address}
use shell_chat_app_multi_ser.Packets.{
  Request, login, logout, join, leave, say, list, who, keep_alive, serv_join, serv_leave, serv_say,
  unknown,
}
use shell_chat_app_multi_ser.Recent.{Recent, record_id, max_ids}
use shell_chat_app_multi_ser.Recent.Seen.{Remembers, among, record_id-append}
use shell_chat_app_multi_ser.Server.State.{State, Datagram, Outcome, done, continue, pure}
use shell_chat_app_multi_ser.Server.Rooms.{Next, resub}
use shell_chat_app_multi_ser.Server.Round.{dispatch}
use shell_chat_app_multi_ser.Server.Peers.{handle_serv_say, handle_serv_leave}
use shell_chat_app_multi_ser.Network.Flood.{
  Node, Hop, seen_ids, fresh_ids, weight, flight_weight, nodes_weight,
}
use shell_chat_app_multi_ser.Network.Flood.Loads.{
  Carries, CarriesMessage, load, Added, Adds, Added-none, Adds-continue,
}
use shell_chat_app_multi_ser.Network.Flood.Handling.{
  handle_serv_say-old, handle_serv_say-new, handle_serv_leave-Adds,
}

Starts-take : (xs ys : List ℕ) → Starts xs ys → take (length ys) xs ≡ ys
Starts-take xs [] h = refl
Starts-take [] (y ∷ ys) h = absurd h
Starts-take (x ∷ xs) (y ∷ ys) h = ap₂ ◌∷◌ h.0 (Starts-take xs ys h.1)

seen_ids-eq : (r : Recent) (ids : List ℕ) → Remembers r ids → seen_ids r ≡ ids
seen_ids-eq r ids m = ap (λ n. take n r.recent_ids) m.count ∙ Starts-take r.recent_ids ids m.begins

fresh_ids_le : (ks ids : List ℕ) (id : ℕ) → fresh_ids ks (ids ++ id ∷ []) ≤ fresh_ids ks ids
fresh_ids_le [] ids id = omega arith
fresh_ids_le (k ∷ ks) ids id =
    ground (arith, fresh_ids_le ks ids id, any-append (λ j. j == k) ids (id ∷ []))

fresh_ids_lt :
    (ks ids : List ℕ) (id : ℕ)
    → among id ks ≡ true
    → among id ids ≡ false
    → fresh_ids ks (ids ++ id ∷ []) < fresh_ids ks ids
fresh_ids_lt [] ids id h new = cc
fresh_ids_lt (k ∷ ks) ids id h new =
    ground (
      arith,
      fresh_ids_lt ks ids id,
      fresh_ids_le ks ids id,
      any-append (λ j. j == k) ids (id ∷ []),
    )

pub flight_weight-append :
    (xs ys : List Hop) → flight_weight (xs ++ ys) ≡ flight_weight xs + flight_weight ys
flight_weight-append [] ys = omega arith
flight_weight-append (x ∷ xs) ys = omega (arith, flight_weight-append xs ys)

pub nodes_weight-append :
    (ks : List ℕ) (xs ys : List Node)
    → nodes_weight ks (xs ++ ys) ≡ nodes_weight ks xs + nodes_weight ks ys
nodes_weight-append ks [] ys = omega arith
nodes_weight-append ks (x ∷ xs) ys = omega (arith, nodes_weight-append ks xs ys)

-- The table of ids is as it should be, and has places left for those of `ks` that are not in it.
pub record HasRoom (ks : List ℕ) (s : State) : Type 0 where
  pub remembers : Remembers s.recent (seen_ids s.recent)
  pub room : length (seen_ids s.recent) + fresh_ids ks (seen_ids s.recent) ≤ max_ids

module _ (ks : List ℕ) where
  abbrev pub state_weight : State → ℕ
  state_weight s = 2 * length s.srvrs * fresh_ids ks (seen_ids s.recent)

  -- What is left once a request of this weight was handled.
  pub record Served (weight_in : ℕ) (s s' : State) : Type 0 where
    pub room : HasRoom ks s'
    pub more : List Datagram
    pub sent : s'.sent ≡ s.sent ++ more
    pub carried : All (λ d. CarriesMessage ks d.message) more
    pub kept : (k : ℕ) → among k (seen_ids s.recent) ≡ true → among k (seen_ids s'.recent) ≡ true
    pub lighter : state_weight s' + load more < state_weight s + weight_in

  handled_old :
      (weight_in b : ℕ) (s s' : State)
      → HasRoom ks s
      → Added ks b s s'
      → b < weight_in
      → Served weight_in s s'
  handled_old weight_in b s s' h a less =
      let same : state_weight s' ≡ state_weight s =
        ap₂ (λ n r. 2 * n * fresh_ids ks (seen_ids r)) a.count a.recent in
      record {
        room = record { remembers = rw a.recent h.remembers; room = rw a.recent h.room };
        more = a.more;
        sent = a.sent;
        carried = a.carried;
        kept = λ k h. rw a.recent h;
        lighter = omega (arith, a.small, same, less);
      }

  handled_new :
      (s s' : State) (id : ℕ)
      → HasRoom ks s
      → among id (seen_ids s.recent) ≡ false
      → among id ks ≡ true
      → Added ks (1 + length s.srvrs * 2) (record s { recent = record_id s.recent id }) s'
      → Served 2 s s'
  handled_new s s' id h new about a =
      let ids = seen_ids s.recent in
      let fewer = fresh_ids_lt ks ids id about new in
      let m : Remembers (record_id s.recent id) (ids ++ id ∷ []) =
        record_id-append s.recent ids id h.remembers (omega (arith, h.room, fewer)) in
      let seen : seen_ids s'.recent ≡ ids ++ id ∷ [] =
        ap seen_ids a.recent ∙ seen_ids-eq (record_id s.recent id) (ids ++ id ∷ []) m in
      let deg = 2 * length s.srvrs in
      let now : state_weight s' ≡ deg * fresh_ids ks (ids ++ id ∷ []) =
        ap₂ (λ n l. 2 * n * fresh_ids ks l) a.count seen in
      let less : deg * fresh_ids ks (ids ++ id ∷ []) + deg ≤ deg * fresh_ids ks ids =
        subst (λ k. k ≤ deg * fresh_ids ks ids) (mul-suc deg (fresh_ids ks (ids ++ id ∷ [])))
          (mul-le-mul_left deg fewer) in
      record {
        room = record {
          remembers = rw (seen, a.recent) m;
          room = rw seen (omega (arith, h.room, fewer, length-append ids (id ∷ [])));
        };
        more = a.more;
        sent = a.sent;
        carried = a.carried;
        kept = λ k old. rw (seen, any-append (λ j. j == k) ids (id ∷ []), old) refl;
        lighter = omega (arith, a.small, now, less);
      }

  -- A case that ends with the renewals.
  ended_done :
      (b : ℕ) (s s' : State) (next : Next) (o : Outcome (Unit {0}))
      → continue o (λ _. pure resub) ≡ done next s'
      → Adds ks b s o
      → Added ks b s s'
  ended_done b s s' next o e h =
      let whole : Adds ks (b + 0) s (continue o (λ _. pure resub)) =
        Adds-continue ks b 0 s o (λ _. pure resub) h (λ a t. Added-none ks 0 t) in
      let a : Added ks (b + 0) s s' = subst (Adds ks (b + 0) s) e whole in
      record {
        recent = a.recent;
        count = a.count;
        more = a.more;
        sent = a.sent;
        small = omega (arith, a.small);
        carried = a.carried;
      }

  pub dispatch-Served :
      (now random : ℕ) (from : Address) (rq : Request) (s s' : State) (next : Next)
      → HasRoom ks s
      → Carries ks rq
      → dispatch now random from rq s ≡ done next s'
      → Served (weight rq) s s'
  unfolding dispatch
  dispatch-Served now random from (serv_say id username channel text) s s' next h about e =
      elim (Bool-cases (among id (seen_ids s.recent))) [
        | inl old ↦
            handled_old 2 1 s s' h
              (ended_done 1 s s' next (handle_serv_say from id username channel text s) e (
                handle_serv_say-old ks s (seen_ids s.recent) from id username channel text
                  h.remembers old))
              (omega arith)
        | inr new ↦ handled_new s s' id h new about (
            ended_done (1 + length s.srvrs * 2) (record s { recent = record_id s.recent id }) s'
              next (handle_serv_say from id username channel text s) e
              (handle_serv_say-new ks s (seen_ids s.recent) from id username channel text
                h.remembers new about))
      ]
  dispatch-Served now random from (serv_leave channel) s s' next h about e =
      handled_old 1 0 s s' h
        (ended_done 0 s s' next (handle_serv_leave from channel s) e
          (handle_serv_leave-Adds ks s from channel))
        (omega arith)
  dispatch-Served now random from (login name) s s' next h about e = absurd about
  dispatch-Served now random from logout s s' next h about e = absurd about
  dispatch-Served now random from (join channel) s s' next h about e = absurd about
  dispatch-Served now random from (leave channel) s s' next h about e = absurd about
  dispatch-Served now random from (say channel text) s s' next h about e = absurd about
  dispatch-Served now random from list s s' next h about e = absurd about
  dispatch-Served now random from (who channel) s s' next h about e = absurd about
  dispatch-Served now random from keep_alive s s' next h about e = absurd about
  dispatch-Served now random from (serv_join channel) s s' next h about e = absurd about
  dispatch-Served now random from (unknown type) s s' next h about e = absurd about
