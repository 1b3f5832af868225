-- ===== src/Network/Flood/Ends.antt =====
-- Ends: the steps of a net of servers, counted.
use shell_chat_app_multi_ser.Base.{
  ℕ, ◌+◌, ◌≤◌, ◌<◌, ◌≡◌, refl, ap, ◌∙◌, List, [], ◌∷◌, ◌++◌, length, drop, drop-append, All,
  All-append, arith,
}
use shell_chat_app_multi_ser.Duckchat.{Address}
use shell_chat_app_multi_ser.Packets.{
  Request, login, logout, join, leave, say, list, who, keep_alive, serv_join, serv_leave, serv_say,
  unknown,
}
use shell_chat_app_multi_ser.Server.State.{Datagram, Message, to_server, to_client}
use shell_chat_app_multi_ser.Network.Flood.{
  Node, Net, to_peers, peer_hop, NetStep, delivered, lost, NetSteps, still, later, weight,
  flight_weight, nodes_weight, net_weight,
}
use shell_chat_app_multi_ser.Network.Flood.Loads.{Carries, CarriesMessage, message_weight, load}
use shell_chat_app_multi_ser.Network.Flood.Dies.{
  HasRoom, dispatch-Served, flight_weight-append, nodes_weight-append,
}

module _ {A : Type 0} (P : A → Type 0) where
  All-left : (xs ys : List A) → All P (xs ++ ys) → All P xs
  All-left [] ys h = tt
  All-left (x ∷ xs) ys h = (h.0, All-left xs ys h.1)

  pub All-right : (xs ys : List A) → All P (xs ++ ys) → All P ys
  All-right [] ys h = h
  All-right (x ∷ xs) ys h = All-right xs ys h.1

some_weight : (rq : Request) → 1 ≤ weight rq
some_weight (serv_say id username channel text) = omega arith
some_weight (login name) = omega arith
some_weight logout = omega arith
some_weight (join channel) = omega arith
some_weight (leave channel) = omega arith
some_weight (say channel text) = omega arith
some_weight list = omega arith
some_weight (who channel) = omega arith
some_weight keep_alive = omega arith
some_weight (serv_join channel) = omega arith
some_weight (serv_leave channel) = omega arith
some_weight (unknown type) = omega arith

module _ (ks : List ℕ) (src dest : Address) where
  flight_weight-peer_hop : (m : Message) → flight_weight (peer_hop src dest m) ≡ message_weight m
  flight_weight-peer_hop (to_server rq) = omega arith
  flight_weight-peer_hop (to_client reply) = refl

  peer_hop-Carries :
      (m : Message) → CarriesMessage ks m → All (λ h. Carries ks h.request) (peer_hop src dest m)
  peer_hop-Carries (to_server rq) h = (h, tt)
  peer_hop-Carries (to_client reply) h = tt

module _ (ks : List ℕ) where
  flight_weight-to_peers :
      (src : Address) (ds : List Datagram) → flight_weight (to_peers src ds) ≡ load ds
  flight_weight-to_peers src [] = refl
  flight_weight-to_peers src (d ∷ ds) = omega (
    arith,
    flight_weight-append (peer_hop src d.dest d.message) (to_peers src ds),
    flight_weight-peer_hop ks src d.dest d.message,
    flight_weight-to_peers src ds,
  )

  to_peers-Carries :
      (src : Address) (ds : List Datagram)
      → All (λ d. CarriesMessage ks d.message) ds
      → All (λ h. Carries ks h.request) (to_peers src ds)
  to_peers-Carries src [] h = tt
  to_peers-Carries src (d ∷ ds) h =
      All-append (λ h. Carries ks h.request) (peer_hop src d.dest d.message) (to_peers src ds)
        (peer_hop-Carries ks src d.dest d.message h.0) (to_peers-Carries src ds h.1)

  -- Every server's table of ids has room, and only says with these ids, and leaves, are on their way.
  pub record IsBounded (w : Net) : Type 0 where
    pub rooms : All (λ n. HasRoom ks n.state) w.nodes
    pub about : All (λ h. Carries ks h.request) w.flight

  NetStep-lighter :
      {w v : Net} → NetStep w v → IsBounded w → IsBounded v × (net_weight ks v < net_weight ks w)
  NetStep-lighter (delivered w ls rs n front back h now random next s near there same served) b =
      let rooms : All (λ x. HasRoom ks x.state) (ls ++ n ∷ rs) = rw near at b.rooms in
      let about : All (λ x. Carries ks x.request) (front ++ h ∷ back) = rw there at b.about in
      let here = All-right (λ x. HasRoom ks x.state) ls (n ∷ rs) rooms in
      let this = All-right (λ x. Carries ks x.request) front (h ∷ back) about in
      let r = dispatch-Served ks now random h.src h.request n.state s next here.0 this.0 served in
      let n' : Node = record n { state = s } in
      let new : drop (length n.state.sent) s.sent ≡ r.more =
        ap (drop (length n.state.sent)) r.sent ∙ drop-append n.state.sent r.more in
      let hops = to_peers n.addr (drop (length n.state.sent) s.sent) in
      let light : flight_weight hops ≡ load r.more =
        flight_weight-to_peers n.addr (drop (length n.state.sent) s.sent) ∙ ap load new in
      (
        record {
          rooms =
              All-append (λ x. HasRoom ks x.state) ls (n' ∷ rs)
                (All-left (λ x. HasRoom ks x.state) ls (n ∷ rs) rooms) (r.room, here.1);
          about =
              All-append (λ x. Carries ks x.request) (front ++ back) hops
                (All-append (λ x. Carries ks x.request) front back
                  (All-left (λ x. Carries ks x.request) front (h ∷ back) about) this.1)
                (rw new (to_peers-Carries n.addr r.more r.carried));
        },
        omega (
          arith,
          nodes_weight-append ks ls (n' ∷ rs),
          nodes_weight-append ks ls (n ∷ rs),
          ap (nodes_weight ks) near,
          ap flight_weight there,
          flight_weight-append front (h ∷ back),
          flight_weight-append front back,
          flight_weight-append (front ++ back) hops,
          light,
          r.lighter,
        ),
      )
  NetStep-lighter (lost w front back h there) b =
      let about : All (λ x. Carries ks x.request) (front ++ h ∷ back) = rw there at b.about in
      let this = All-right (λ x. Carries ks x.request) front (h ∷ back) about in
      (
        record {
          rooms = b.rooms;
          about =
              All-append (λ x. Carries ks x.request) front back
                (All-left (λ x. Carries ks x.request) front (h ∷ back) about) this.1;
        },
        omega (
          arith,
          ap flight_weight there,
          flight_weight-append front (h ∷ back),
          flight_weight-append front back,
          some_weight h.request,
        ),
      )

  pub course :
      {k : ℕ} {w v : Net}
      → NetSteps k w v
      → IsBounded w
      → IsBounded v × (k + net_weight ks v ≤ net_weight ks w)
  course (still w) b = (b, omega arith)
  course (later k u v w s t) b =
      let (b', less) = course s b in
      let (b'', less') = NetStep-lighter t b' in (b'', omega (arith, less, less'))

-- Let a net of servers, connected in any way, have only says and leaves between servers on their way, let
-- every say's id be one of `ks`, and let every server's table have places for those of them that it
-- has not recorded. Then no course of deliveries and losses, in any order, has more steps than two for
-- every say and one for every leave that is on its way, and, for every server, two for each of its
-- neighbours and each of the ids that it has not recorded.
pub says-NetSteps :
    (ks : List ℕ) (k : ℕ) (w v : Net)
    → IsBounded ks w
    → NetSteps k w v
    → k + net_weight ks v ≤ net_weight ks w
says-NetSteps ks k w v b s = (course ks s b).1
