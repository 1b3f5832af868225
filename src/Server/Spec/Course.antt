-- ===== src/Server/Spec/Course.antt =====
-- Rounds one after another, each with a permitted request, while no timer runs out.
use shell_chat_app_multi_ser.Base.{
  ℕ, ◌+◌, ◌≤◌, ◌≡◌, refl, ap, sym, ◌∙◌, subst, List, [], ◌∷◌, All, arith,
}
use shell_chat_app_multi_ser.Duckchat.{Address}
use shell_chat_app_multi_ser.Channels.{Channel, Heap}
use shell_chat_app_multi_ser.Packets.{Request}
use shell_chat_app_multi_ser.Server.State.{State, done}
use shell_chat_app_multi_ser.Server.Chat.{Room, AreRooms}
use shell_chat_app_multi_ser.Server.Rooms.{Next, resub, next_round}
use shell_chat_app_multi_ser.Server.Round.{Event, packet, min_1, receive, finish, round, run}
use shell_chat_app_multi_ser.Server.Round.Check.{IsRenewed, check_timers-renewed}
use shell_chat_app_multi_ser.Server.Round.Renewal.{renew-fresh}
use shell_chat_app_multi_ser.Server.Spec.{View, Permitted, result}
use shell_chat_app_multi_ser.Server.Spec.Serves.{Shows}
use shell_chat_app_multi_ser.Server.Spec.Refinement.{dispatch-Shows}

-- From a view the events lead to another: each brings a permitted request, and leaves no room that
-- was last renewed more than a minute before.
pub data Course : View → List Event → View → Type 0 where
  ended : (v : View) → Course v [] v
  goes_on :
      (v : View) (e : Event) (es : List Event) (from : Address) (rq : Request)
      (p : Permitted v from rq) (w : View)
      → e.arrival ≡ packet from rq
      → All (λ r. e.renewed ≤ r.time + min_1) (result v from e.handled e.random rq p).rooms
      → Course (result v from e.handled e.random rq p) es w
      → Course v (e ∷ es) w

fresh-AreRooms :
    (heap : Heap) (now : ℕ) (chs : List Channel) (rooms : List Room)
    → AreRooms heap chs rooms
    → All (λ r. now ≤ r.time + min_1) rooms
    → All (λ c. now ≤ c.tm + min_1) chs
fresh-AreRooms heap now [] [] h fresh = tt
fresh-AreRooms heap now [] (r ∷ rooms) h fresh = absurd h
fresh-AreRooms heap now (c ∷ chs) [] h fresh = absurd h
fresh-AreRooms heap now (c ∷ chs) (r ∷ rooms) h fresh =
    (omega (arith, h.0.timed, fresh.0), fresh-AreRooms heap now chs rooms h.1 fresh.1)

finish-quiet :
    (now : ℕ) (next : Next) (s : State) (v : View)
    → Shows s v
    → All (λ r. now ≤ r.time + min_1) v.rooms
    → finish now next s ≡ done tt s
finish-quiet now next_round s v h fresh = refl
finish-quiet now resub s v h fresh =
    renew-fresh now s h.chs h.tables.channels
      (fresh-AreRooms s.heap now h.chs v.rooms h.tables.rooms_of fresh)

-- If the state stands for the view `v`, the events lead from `v` to `w`, each by a permitted request of a
-- client, or say of another server, after which no room was last renewed more than a minute before, and
-- every neighbour's timers, at each check of them, are set and at most two minutes old behind the first
-- subscription, then the rounds for the events end without a fault, with the same neighbours, in a
-- state that stands for `w`.
pub run-Shows :
    (es : List Event) (s : State) (v w : View)
    → Shows s v
    → Course v es w
    → All (λ e. All (IsRenewed e.checked) s.srvrs) es
    → (s' : State) × (run es s ≡ done tt s') × Shows s' w × (s'.srvrs ≡ s.srvrs)
unfolding run round receive
run-Shows [] s v _ h (ended _) timely = (s, refl, h, refl)
run-Shows (e ∷ es) s v w h (goes_on _ _ _ from rq p _ brings fresh course) timely =
    let (next, t, served, h', same) = dispatch-Shows e.handled e.random s v from rq h p in
    let (s', ran, h'', same') =
      run-Shows es t (result v from e.handled e.random rq p) w h' course
        (subst (λ srvrs. All (λ x. All (IsRenewed x.checked) srvrs) es) (sym same) timely.1) in
    (
      s',
      rw
          (
            check_timers-renewed e.checked s timely.0,
            ap (receive e) brings,
            served,
            finish-quiet e.renewed next t (result v from e.handled e.random rq p) h' fresh,
          )
          ran,
      h'',
      same' ∙ same,
    )
