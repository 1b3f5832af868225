-- ===== src/Network/Flood/Once.antt =====
-- Once: a server that has recorded a say's id.
use shell_chat_app_multi_ser.Base.{
  ℕ, zero, suc, ◌<◌, ◌≡◌, sym, true, some, some-eq, none-ne-some, List, [], ◌∷◌, ◌++◌, length,
  get_elem?, All, Text,
}
use shell_chat_app_multi_ser.Duckchat.{Address, channel_max}
use shell_chat_app_multi_ser.Recent.Seen.{among}
use shell_chat_app_multi_ser.Server.State.{done}
use shell_chat_app_multi_ser.Server.State.Loops.{sends}
use shell_chat_app_multi_ser.Server.Peers.{handle_serv_say}
use shell_chat_app_multi_ser.Server.Peers.DeadEnds.{leave_to, handle_serv_say-duplicate}
use shell_chat_app_multi_ser.Network.Flood.{
  Node, Net, NetStep, delivered, lost, NetSteps, still, later, seen_ids,
}
use shell_chat_app_multi_ser.Network.Flood.Loads.{Carries}
use shell_chat_app_multi_ser.Network.Flood.Dies.{HasRoom, dispatch-Served}
use shell_chat_app_multi_ser.Network.Flood.Ends.{IsBounded, All-right, course}

-- Server by server, no id is forgotten.
abbrev Grows : List Node → List Node → Type 0
Grows [] [] = Unit
Grows [] (m ∷ ms) = ⊥
Grows (n ∷ ns) [] = ⊥
Grows (n ∷ ns) (m ∷ ms) =
    ((k : ℕ) → among k (seen_ids n.state.recent) ≡ true → among k (seen_ids m.state.recent) ≡ true)
    × Grows ns ms

Grows-refl : (ns : List Node) → Grows ns ns
Grows-refl [] = tt
Grows-refl (n ∷ ns) = (λ k h. h, Grows-refl ns)

Grows-trans : (ns ms os : List Node) → Grows ns ms → Grows ms os → Grows ns os
Grows-trans [] [] [] g h = tt
Grows-trans [] [] (o ∷ os) g h = absurd h
Grows-trans [] (m ∷ ms) os g h = absurd g
Grows-trans (n ∷ ns) [] os g h = absurd g
Grows-trans (n ∷ ns) (m ∷ ms) [] g h = absurd h
Grows-trans (n ∷ ns) (m ∷ ms) (o ∷ os) g h =
    (λ k known. h.0 k (g.0 k known), Grows-trans ns ms os g.1 h.1)

Grows-at :
    (ls rs : List Node) (n m : Node)
    → ((k : ℕ)
        → among k (seen_ids n.state.recent) ≡ true
        → among k (seen_ids m.state.recent) ≡ true)
    → Grows (ls ++ n ∷ rs) (ls ++ m ∷ rs)
Grows-at [] rs n m h = (h, Grows-refl rs)
Grows-at (l ∷ ls) rs n m h = (λ k known. known, Grows-at ls rs n m h)

still_known :
    (ns ms : List Node) (i : ℕ) (n m : Node) (k : ℕ)
    → Grows ns ms
    → get_elem? ns i ≡ some n
    → get_elem? ms i ≡ some m
    → among k (seen_ids n.state.recent) ≡ true
    → among k (seen_ids m.state.recent) ≡ true
still_known [] ms i n m k g e e' h = cc
still_known (x ∷ ns) [] i n m k g e e' h = absurd g
still_known (x ∷ ns) (y ∷ ms) zero n m k g e e' h =
    let was : x ≡ n = some-eq x n e in
    let is : y ≡ m = some-eq y m e' in rw (sym is) (g.0 k (rw (sym was) at h))
still_known (x ∷ ns) (y ∷ ms) (suc i) n m k g e e' h = still_known ns ms i n m k g.1 e e' h

All-get_elem? :
    (P : Node → Type 0) (ns : List Node) (i : ℕ) (n : Node)
    → All P ns
    → get_elem? ns i ≡ some n
    → P n
All-get_elem? P [] i n h e = absurd (none-ne-some n e)
All-get_elem? P (x ∷ ns) zero n h e = rw (sym (some-eq x n e)) h.0
All-get_elem? P (x ∷ ns) (suc i) n h e = All-get_elem? P ns i n h.1 e

module _ (ks : List ℕ) where
  NetStep-Grows : {w v : Net} → NetStep w v → IsBounded ks w → Grows w.nodes v.nodes
  NetStep-Grows (delivered w ls rs n front back h now random next s near there same served) b =
      let rooms : All (λ x. HasRoom ks x.state) (ls ++ n ∷ rs) = rw near at b.rooms in
      let about : All (λ x. Carries ks x.request) (front ++ h ∷ back) = rw there at b.about in
      let here = All-right (λ x. HasRoom ks x.state) ls (n ∷ rs) rooms in
      let this = All-right (λ x. Carries ks x.request) front (h ∷ back) about in
      let r = dispatch-Served ks now random h.src h.request n.state s next here.0 this.0 served in
      rw near (Grows-at ls rs n (record n { state = s }) r.kept)
  NetStep-Grows (lost w front back h there) b = Grows-refl w.nodes

  NetSteps-Grows : {j : ℕ} {w v : Net} → NetSteps j w v → IsBounded ks w → Grows w.nodes v.nodes
  NetSteps-Grows (still w) b = Grows-refl w.nodes
  NetSteps-Grows (later j u v w s t) b =
      Grows-trans u.nodes v.nodes w.nodes (NetSteps-Grows s b) (NetStep-Grows t (course ks s b).0)

-- In a net of servers in which only says with ids of `ks` and leaves are on their way, and every table
-- has places for those of these ids that it lacks: if the server at place `i` has recorded an id, then,
-- after any course of deliveries and losses, a say with that id that comes to it, from whichever
-- address, is shown to nobody and passed on to nobody, but only answered by a leave, if the channel
-- fits its field; nothing else changes.
pub handle_serv_say_later :
    (ks : List ℕ) (j : ℕ) (w v : Net) (i : ℕ) (n m : Node) (addr : Address) (id : ℕ)
    (username name text : Text)
    → IsBounded ks w
    → NetSteps j w v
    → get_elem? w.nodes i ≡ some n
    → get_elem? v.nodes i ≡ some m
    → among id (seen_ids n.state.recent) ≡ true
    → length name < channel_max
    → handle_serv_say addr id username name text m.state
      ≡ done tt (sends m.state (leave_to addr name ∷ []))
handle_serv_say_later ks j w v i n m addr id username name text b s was is known fits =
    let room : HasRoom ks m.state =
      All-get_elem? (λ x. HasRoom ks x.state) v.nodes i m (course ks s b).0.rooms is in
    handle_serv_say-duplicate m.state (seen_ids m.state.recent) addr id username name text
      room.remembers (still_known w.nodes v.nodes i n m id (NetSteps-Grows ks s b) was is known)
      fits
