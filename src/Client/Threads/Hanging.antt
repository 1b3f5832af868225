-- ===== src/Client/Threads/Hanging.antt =====
-- Hanging: a course on which `recv_thread` does not end.
use shell_chat_app_multi_ser.Base.{
  ◌≡◌, ◌≢◌, refl, ap, sym, subst, ◌∙◌, Bool, true, false, Option, none,
}
use shell_chat_app_multi_ser.Client.Threads.{
  Sender, reading, ended, Receiver, head, asleep, woken, Thread, World, Step, by_sender,
  by_receiver, spurious, Steps, here, and_then, key, key_told, end_of_line, writing_reset,
  line_told, set_logout, logout_told, ReceiverStep, goes_on, stops, no_datagram, datagram,
  show_lock, must_wait, may_show, wait, wait_lock, show_unlock,
}
use shell_chat_app_multi_ser.Client.Threads.Ending.{SenderStep-none}

abbrev at : Sender → Receiver → Bool → Bool → Option Thread → World
at s r writing logout lock = record {
  sender = s;
  receiver = r;
  writing = writing;
  logout = logout;
  lock = lock;
}

-- A datagram comes while the user types; the receiver finds `writing` set and is stopped just before it
-- waits, until the line is handled and the user has left.
typed_away : (b : Bool) → Steps (at reading head b false none) (at ended asleep false true none)
typed_away b =
    let s0 = here (at reading head b false none) in
    let s1 = and_then _ _ _ s0 (by_receiver _ (goes_on _ refl refl)) in
    let s2 = and_then _ _ _ s1 (by_receiver _ (datagram _ refl)) in
    let s3 = and_then _ _ _ s2 (by_sender _ (key _ refl)) in
    let s4 = and_then _ _ _ s3 (by_sender _ (key_told _ refl)) in
    let s5 = and_then _ _ _ s4 (by_receiver _ (show_lock _ refl refl)) in
    let s6 = and_then _ _ _ s5 (by_receiver _ (must_wait _ refl refl)) in
    let s7 = and_then _ _ _ s6 (by_sender _ (end_of_line _ refl)) in
    let s8 = and_then _ _ _ s7 (by_sender _ (writing_reset _ refl)) in
    let s9 = and_then _ _ _ s8 (by_sender _ (line_told _ refl)) in
    let s10 = and_then _ _ _ s9 (by_sender _ (set_logout _ refl)) in
    let s11 = and_then _ _ _ s10 (by_sender _ (logout_told _ refl)) in
    and_then _ _ _ s11 (by_receiver _ (wait _ refl))

ReceiverStep-none : {w v : World} → ReceiverStep w v → w.receiver ≢ asleep
ReceiverStep-none (goes_on w e l) g = cc
ReceiverStep-none (stops w e l) g = cc
ReceiverStep-none (no_datagram w e) g = cc
ReceiverStep-none (datagram w e) g = cc
ReceiverStep-none (show_lock w e l) g = cc
ReceiverStep-none (must_wait w e l) g = cc
ReceiverStep-none (may_show w e l) g = cc
ReceiverStep-none (wait w e) g = cc
ReceiverStep-none (wait_lock w e l) g = cc
ReceiverStep-none (show_unlock w e) g = cc

-- Only a wake-up without a broadcast is left.
abbrev pub IsStuck : World → Type 0
IsStuck w = (w.receiver ≡ asleep) × ((v : World) → Step w v → v ≡ record w { receiver = woken })

stuck :
    (w : World) (v : World)
    → Step w v
    → w.sender ≡ ended
    → w.receiver ≡ asleep
    → v ≡ record w { receiver = woken }
stuck w v (by_sender _ s) e r = absurd (SenderStep-none s e)
stuck w v (by_receiver _ s) e r = absurd (ReceiverStep-none s r)
stuck w _ (spurious _) e r = refl

-- From every state in which the user may type, `recv_thread` is at the head of its loop, nobody has left
-- and the mutex is free, there is a course on which the user leaves and `recv_thread` then sleeps
-- in `pthread_cond_wait`, with no step left but a wake-up without a broadcast.
pub leaving_may_hang :
    (w : World)
    → w.sender ≡ reading
    → w.receiver ≡ head
    → w.logout ≡ false
    → w.lock ≡ none
    → (v : World) × Steps w v × (v.sender ≡ ended) × IsStuck v
leaving_may_hang w reads heads stays unheld =
    let v = at ended asleep false true none in
    let same : at reading head w.writing false none ≡ w =
      ap (λ s. at s head w.writing false none) (sym reads)
      ∙ ap (λ r. at w.sender r w.writing false none) (sym heads)
      ∙ ap (λ l. at w.sender w.receiver w.writing l none) (sym stays)
      ∙ ap (at w.sender w.receiver w.writing w.logout) (sym unheld) in
    (
      v,
      subst (λ u. Steps u v) same (typed_away w.writing),
      refl,
      (refl, λ u s. stuck v u s refl refl),
    )
