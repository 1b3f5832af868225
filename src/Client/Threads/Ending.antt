-- ===== src/Client/Threads/Ending.antt =====
-- Ending: what becomes of `recv_thread` once the user leaves.
use shell_chat_app_multi_ser.Base.{
  ℕ, suc, ◌+◌, ◌≤◌, ◌<◌, ◌≡◌, ◌≢◌, refl, ap, ◌∙◌, Bool, true, false, none, arith,
}
use shell_chat_app_multi_ser.Client.Threads.{
  ended, Receiver, head, receiving, has_datagram, testing, about_to_wait, asleep, woken, showing,
  finished, World, first_world, Step, by_sender, by_receiver, spurious, Steps, here, and_then,
  SenderStep, key, key_told, end_of_line, writing_reset, line_told, without_prompt, with_prompt,
  prompt_lock, prompt_told, prompt_unlock, set_logout, logout_told, ReceiverStep, goes_on, stops,
  no_datagram, datagram, show_lock, must_wait, may_show, wait, wait_lock, show_unlock,
}
use shell_chat_app_multi_ser.Client.Threads.Exclusion.{IsFair, Step-IsFair, threads-IsFair}
use shell_chat_app_multi_ser.Client.Threads.Holders.{receiver_inside}

-- In the wait, or at its call.
abbrev pub is_waiting : Receiver → Bool
is_waiting head = false
is_waiting receiving = false
is_waiting has_datagram = false
is_waiting testing = false
is_waiting about_to_wait = true
is_waiting asleep = true
is_waiting woken = false
is_waiting showing = false
is_waiting finished = false

-- The steps that are left at most.
abbrev pub rank : Receiver → ℕ
rank head = 1
rank receiving = 5
rank has_datagram = 4
rank testing = 3
rank about_to_wait = 0
rank asleep = 0
rank woken = 4
rank showing = 2
rank finished = 0

abbrev pub count : {w v : World} → Steps w v → ℕ
count (here w) = 0
count (and_then u v w s t) = suc (count s)

-- The user has left, and the receiver is not caught in its wait.
pub record IsEnding (w : World) : Type 0 where
  pub fair : IsFair w
  pub gone : w.sender ≡ ended
  pub free : is_waiting w.receiver ≡ false

pub SenderStep-none : {w v : World} → SenderStep w v → w.sender ≢ ended
SenderStep-none (key w e) g = cc
SenderStep-none (key_told w e) g = cc
SenderStep-none (end_of_line w e) g = cc
SenderStep-none (writing_reset w e) g = cc
SenderStep-none (line_told w e) g = cc
SenderStep-none (without_prompt w e) g = cc
SenderStep-none (with_prompt w e) g = cc
SenderStep-none (prompt_lock w e u) g = cc
SenderStep-none (prompt_told w e) g = cc
SenderStep-none (prompt_unlock w e) g = cc
SenderStep-none (set_logout w e) g = cc
SenderStep-none (logout_told w e) g = cc

module _ (w : World) (h : IsEnding w) where
  has_logout : w.logout ≡ true
  has_logout = let l = h.fair.left in rw (h.gone) at l

  is_quiet : w.writing ≡ false
  is_quiet = h.fair.quiet (rw h.gone refl)

  -- Only the receiver may hold the mutex.
  unlocked : receiver_inside w.receiver ≡ false → w.lock ≡ none
  unlocked out = let l = h.fair.held in rw (h.gone, out) at l

ReceiverStep-nearer :
    {w v : World}
    → ReceiverStep w v
    → IsEnding w
    → (rank v.receiver < rank w.receiver) × (is_waiting v.receiver ≡ false) × (v.sender ≡ w.sender)
ReceiverStep-nearer (goes_on w e go) h = let l = has_logout w h in cc
ReceiverStep-nearer (stops w e out) h = (rw e (omega arith), refl, refl)
ReceiverStep-nearer (no_datagram w e) h = (rw e (omega arith), refl, refl)
ReceiverStep-nearer (datagram w e) h = (rw e (omega arith), refl, refl)
ReceiverStep-nearer (show_lock w e u) h = (rw e (omega arith), refl, refl)
ReceiverStep-nearer (must_wait w e busy) h = let l = is_quiet w h in cc
ReceiverStep-nearer (may_show w e calm) h = (rw e (omega arith), refl, refl)
ReceiverStep-nearer (wait w e) h = let l : true ≡ false = rw e at h.free in cc
ReceiverStep-nearer (wait_lock w e u) h = (rw e (omega arith), refl, refl)
ReceiverStep-nearer (show_unlock w e) h = (rw e (omega arith), refl, refl)

Step-nearer :
    {w v : World} → Step w v → IsEnding w → IsEnding v × (rank v.receiver < rank w.receiver)
Step-nearer (by_sender v s) h = absurd (SenderStep-none s h.gone)
Step-nearer (by_receiver v s) h =
    let (less, free, same) = ReceiverStep-nearer s h in
    (
      record { fair = Step-IsFair (by_receiver v s) h.fair; gone = same ∙ h.gone; free = free },
      less,
    )
Step-nearer (spurious e) h = let l : true ≡ false = rw e at h.free in absurd cc

Steps-nearer :
    {w v : World} (s : Steps w v)
    → IsEnding w
    → IsEnding v × (count s + rank v.receiver ≤ rank w.receiver)
Steps-nearer (here w) h = (h, omega arith)
Steps-nearer (and_then u v w s t) h =
    let (h', less) = Steps-nearer s h in let (h'', less') = Step-nearer t h' in (h'', omega arith)

can_go_on :
    (r : Receiver) (w : World) → IsEnding w → w.receiver ≡ r → r ≢ finished → (v : World) × Step w v
can_go_on head w h e n = (_, by_receiver _ (stops w e (has_logout w h)))
can_go_on receiving w h e n = (_, by_receiver _ (no_datagram w e))
can_go_on has_datagram w h e n =
    (_, by_receiver _ (show_lock w e (unlocked w h (ap receiver_inside e))))
can_go_on testing w h e n = (_, by_receiver _ (may_show w e (is_quiet w h)))
can_go_on about_to_wait w h e n = let l : true ≡ false = rw e at h.free in absurd cc
can_go_on asleep w h e n = let l : true ≡ false = rw e at h.free in absurd cc
can_go_on woken w h e n = (_, by_receiver _ (wait_lock w e (unlocked w h (ap receiver_inside e))))
can_go_on showing w h e n = (_, by_receiver _ (show_unlock w e))
can_go_on finished w h e n = absurd (n refl)

rank_small : (r : Receiver) → rank r ≤ 5
rank_small head = omega arith
rank_small receiving = omega arith
rank_small has_datagram = omega arith
rank_small testing = omega arith
rank_small about_to_wait = omega arith
rank_small asleep = omega arith
rank_small woken = omega arith
rank_small showing = omega arith
rank_small finished = omega arith

-- Once the user has left, and if `recv_thread` is then neither in its wait nor at its call, the threads
-- take at most five more steps, whichever they are, and can take one until `recv_thread` has ended.
pub left-finishes :
    (w v : World)
    → Steps first_world w
    → w.sender ≡ ended
    → is_waiting w.receiver ≡ false
    → (s : Steps w v) → (count s ≤ 5) × (v.receiver ≢ finished → (u : World) × Step v u)
left-finishes w v before gone free s =
    let h : IsEnding w = record { fair = threads-IsFair w before; gone = gone; free = free } in
    let (h', less) = Steps-nearer s h in
    (omega (arith, rank_small w.receiver), can_go_on v.receiver v h' refl)
