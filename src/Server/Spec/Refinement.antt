-- ===== src/Server/Spec/Refinement.antt =====
-- The server against its specification, for one request of a client, or say of another server.
use shell_chat_app_multi_ser.Server.Spec.Serves.{
  Shows, length-AreRooms, unsent, with_rooms, login-Serves, leave-Serves,
}
use shell_chat_app_multi_ser.Base.{
  ℕ, ◌≡◌, ◌∙◌, refl, ap, sym, List, [], ◌∷◌, ◌++◌, erase_first, arith,
}
use shell_chat_app_multi_ser.Duckchat.{Address}
use shell_chat_app_multi_ser.Channels.{User}
use shell_chat_app_multi_ser.Channels.Remove.{named}
use shell_chat_app_multi_ser.Packets.{Request}
use shell_chat_app_multi_ser.Server.State.{State, done, pure, continue}
use shell_chat_app_multi_ser.Server.Chat.{Represents}
use shell_chat_app_multi_ser.Server.Users.Logout.{handle_logout-removes}
use shell_chat_app_multi_ser.Server.Say.Delivery.{handle_say-delivers}
use shell_chat_app_multi_ser.Recent.Seen.{record_id-append}
use shell_chat_app_multi_ser.Server.Peers.DeadEnds.{handle_serv_say-duplicate}
use shell_chat_app_multi_ser.Server.Peers.Forward.{handle_serv_say-forwards}
use shell_chat_app_multi_ser.Server.Rooms.{Next, resub}
use shell_chat_app_multi_ser.Server.Rooms.Join.{handle_join-enters, handle_join-opens}
use shell_chat_app_multi_ser.Server.Rooms.Info.{handle_list-names}
use shell_chat_app_multi_ser.Server.Rooms.Who.{handle_who-names}
use shell_chat_app_multi_ser.Server.Round.{dispatch}
use shell_chat_app_multi_ser.Server.Spec.{
  View, Permitted, login_with, join_room, open_room, leave_room, say_in, list_rooms, who_is_in,
  log_out, hear_again, hear, result,
}

cons-ne-nil : (u : User) (us : List User) → ¬ (◌≡◌ {A = List User} (u ∷ us) [])
cons-ne-nil u us e = cc

-- If the state stands for the view `v`, every permitted request of a client, and every permitted say of
-- another server, is handled without a fault, whatever the time and the random number, and leaves a state
-- that stands for what the specification makes of `v`. The neighbours stay as they are.
pub dispatch-Shows :
    (now random : ℕ) (s : State) (v : View) (from : Address) (rq : Request)
    → Shows s v
    → (p : Permitted v from rq)
    → (next : Next) × (s' : State) × (dispatch now random from rq s ≡ done next s')
      × Shows s' (result v from now random rq p)
      × (s'.srvrs ≡ s.srvrs)
unfolding dispatch
dispatch-Shows now random s v from _ h (login_with name r rooms e1 e2 e3 e4 e5) =
    let tables : Represents s v.us h.chs (r ∷ rooms) = rw e1 at h.tables in
    let served =
      login-Serves now random s v.us h.chs from name r rooms v.ids tables h.neighbours h.remembered
        e2 e3 e4 e5 in
    rw (e1, sym h.counter) served
dispatch-Shows now random s v from _ h (join_room u name r e1 e2 e3 e4) =
    let (channels, chs', (e, t)) =
      handle_join-enters now s v.us h.chs v.rooms from name u r h.tables e1 e2 e3 e4 in
    (resub, _, e, with_rooms s _ v _ _ chs' h refl refl refl t, refl)
dispatch-Shows now random s v from _ h (open_room u name e1 e2 e3 e4) =
    let (channels, chs', (e, t)) =
      handle_join-opens now s v.us h.chs v.rooms from name u h.tables e1 e2 e3
        (omega (arith, e4, length-AreRooms s h.chs v.rooms h.tables.rooms_of)) in
    (resub, _, e, with_rooms s _ v _ _ chs' h refl refl refl t, refl)
dispatch-Shows now random s v from _ h (leave_room u name r e1 e2 e3 e4) = rw (sym h.counter) (
    leave-Serves now random s v.us h.chs v.rooms from name u r
      (erase_first (named u.username) r.members) v.ids h.tables h.neighbours h.remembered e1 e2 e3
      refl e4)
dispatch-Shows now random s v from _ h (say_in u m name text r e1 e2 e3 e4 e5 e6 e7 e8) =
    let e =
      handle_say-delivers random s v.us h.chs v.rooms from name text u m r h.tables h.neighbours e1
        e2 e3 e4 e5 e6 e7 in
    (
      resub,
      _,
      ap (λ o. continue o (λ _. pure resub)) e,
      unsent s v _ (v.ids ++ random ∷ []) _ h
          (record_id-append s.recent v.ids random h.remembered e8),
      refl,
    )
dispatch-Shows now random s v from _ h (list_rooms e) = (
  resub,
  _,
  handle_list-names s v.us h.chs v.rooms from h.tables e,
  unsent s v _ v.ids _ h h.remembered,
  refl,
)
dispatch-Shows now random s v from _ h (who_is_in name r e1 e2 e3 e4 e5) = (
  resub,
  _,
  handle_who-names s v.us h.chs v.rooms from name r h.tables e1 e2 e3 e4 e5,
  unsent s v _ v.ids _ h h.remembered,
  refl,
)
dispatch-Shows now random s v from _ h (log_out u e1 e2 e3) =
    let (channels, all_users, chs', (e, t)) =
      handle_logout-removes s v.us h.chs v.rooms from u h.tables e1 e2 e3 in
    (
      resub,
      _,
      ap (λ o. continue o (λ _. pure resub)) e,
      with_rooms s _ v _ _ chs' h refl refl refl t,
      refl,
    )
dispatch-Shows now random s v from _ h (hear_again id username name text e1 e2) =
    let e = handle_serv_say-duplicate s v.ids from id username name text h.remembered e1 e2 in
    (resub, _, ap (λ o. continue o (λ _. pure resub)) e, unsent s v _ v.ids _ h h.remembered, refl)
dispatch-Shows now random s v from _ h (hear id username name text r u us e1 e2 e3 e4 e5 e6 e7) =
    let e =
      handle_serv_say-forwards s v.us h.chs v.rooms v.ids from id username name text r h.tables
        h.neighbours h.remembered e1 e2 (λ empty. absurd (cons-ne-nil u us (sym e3 ∙ empty))) e4 e5
        e6 in
    (
      resub,
      _,
      ap (λ o. continue o (λ _. pure resub)) e,
      unsent s v _ (v.ids ++ id ∷ []) _ h (record_id-append s.recent v.ids id h.remembered e7),
      refl,
    )
