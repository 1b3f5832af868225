-- ===== src/Server/Round/Check.antt =====
-- The check for late timers, over all adjacent servers, and a round in which nothing is due.
use native.Mathlib.Nat.{add-zero}
use shell_chat_app_multi_ser.Base.{
  ℕ, suc, ◌+◌, ◌≤◌, ◌<◌, ◌≡◌, refl, ap, List, [], ◌∷◌, ok, pos, rounds, All, length, arith,
}
use shell_chat_app_multi_ser.Channels.{User, Channel}
use shell_chat_app_multi_ser.Adjacent.{Server, min_2}
use shell_chat_app_multi_ser.Adjacent.Subs.{IsSound}
use shell_chat_app_multi_ser.Adjacent.Expiry.{IsTimed, expire-total, expire-renewed}
use shell_chat_app_multi_ser.Server.State.{State, done}
use shell_chat_app_multi_ser.Server.Chat.{Room, Represents}
use shell_chat_app_multi_ser.Server.Round.{
  Event, nothing, expire_all, check_timers, receive, round, min_1,
}
use shell_chat_app_multi_ser.Server.Round.Renewal.{renew-fresh}

-- A sound server with its timers set.
pub record IsReady (srvr : Server) : Type 0 where
  pub sound : IsSound srvr
  pub timed : IsTimed srvr

-- Every subscription behind the first was renewed within two minutes.
pub record IsRenewed (now : ℕ) (srvr : Server) : Type 0 where
  pub ready : IsReady srvr
  pub renewed :
      (i : ℕ) (low : 1 ≤ i) (high : i < rounds srvr.num_chnnls)
      → now ≤ (ready.timed i low high).time + min_2

expire_all-total :
    (now : ℕ) (srvrs : List Server)
    → All IsReady srvrs
    → (srvrs' : List Server) × (strays : ℕ) × (expire_all now srvrs ≡ ok (srvrs', strays))
      × (length srvrs' ≡ length srvrs)
unfolding expire_all
expire_all-total now [] h = ([], 0, refl, refl)
expire_all-total now (x ∷ srvrs) h =
    let (m, strays, e, le) = expire-total now x h.0.sound h.0.timed in
    let (srvrs', more, e', n) = expire_all-total now srvrs h.1 in
    (record x { num_chnnls = pos m } ∷ srvrs', strays + more, rw (e, e') refl, ap suc n)

expire_all-renewed :
    (now : ℕ) (srvrs : List Server)
    → All (IsRenewed now) srvrs
    → expire_all now srvrs ≡ ok (srvrs, 0)
unfolding expire_all
expire_all-renewed now [] h = refl
expire_all-renewed now (x ∷ srvrs) h =
    rw
      (
        expire-renewed now x h.0.ready.sound h.0.ready.timed h.0.renewed,
        expire_all-renewed now srvrs h.1,
      )
      (ap (λ k. ok (x ∷ srvrs, k)) (omega arith))

-- If every neighbour is sound and its timers behind the first subscription are set, the check for
-- late timers ends without a fault: it keeps the number of neighbours, and changes no variable but
-- the neighbours and the count of stray writes.
pub check_timers-total :
    (now : ℕ) (s : State)
    → All IsReady s.srvrs
    → (srvrs : List Server) × (strays : ℕ) × (check_timers now s
        ≡ done tt (record s { srvrs = srvrs; stray_writes = s.stray_writes + strays }))
      × (length srvrs ≡ length s.srvrs)
unfolding check_timers
check_timers-total now s h =
    let (srvrs, strays, e, n) = expire_all-total now s.srvrs h in (srvrs, strays, rw e refl, n)

pub check_timers-renewed :
    (now : ℕ) (s : State) → All (IsRenewed now) s.srvrs → check_timers now s ≡ done tt s
unfolding check_timers
check_timers-renewed now s h =
    rw (expire_all-renewed now s.srvrs h)
      (ap (λ k. done tt (record s { stray_writes = k })) (add-zero s.stray_writes))

-- If the tables represent `us` and `rooms`, every neighbour is sound, its
-- timers are set and at most two minutes old behind the first subscription, and no channel was last
-- renewed more than a minute ago, then a round that receives nothing changes nothing and sends
-- nothing.
pub round_quiet :
    (e : Event) (s : State) (us : List User) (chs : List Channel) (rooms : List Room)
    → Represents s us chs rooms
    → e.arrival ≡ nothing
    → All (IsRenewed e.checked) s.srvrs
    → All (λ c. e.renewed ≤ c.tm + min_1) chs
    → round e s ≡ done tt s
unfolding round receive
round_quiet e s us chs rooms v quiet timely fresh =
    rw
      (
        check_timers-renewed e.checked s timely,
        ap (receive e) quiet,
        renew-fresh e.renewed s chs v.channels fresh,
      )
      refl
