-- ===== src/Client/Threads/Holders.antt =====
-- Holders: which thread may hold the mutex, by where the threads are.
use shell_chat_app_multi_ser.Base.{◌≡◌, refl, Bool, true, false, Option, none, some}
use shell_chat_app_multi_ser.Client.Threads.{
  Sender, reading, keyed, entered, line_ready, deciding, locking, prompting, prompted, leaving,
  ended, Receiver, head, receiving, has_datagram, testing, about_to_wait, asleep, woken, showing,
  finished, Thread, send_thread, recv_thread, broadcast,
}

-- Between the lock and the unlock of the prompt.
abbrev pub sender_inside : Sender → Bool
sender_inside reading = false
sender_inside keyed = false
sender_inside entered = false
sender_inside line_ready = false
sender_inside deciding = false
sender_inside locking = false
sender_inside prompting = true
sender_inside prompted = true
sender_inside leaving = false
sender_inside ended = false

-- Between the lock and the unlock of what is shown, but not in the wait.
abbrev pub receiver_inside : Receiver → Bool
receiver_inside head = false
receiver_inside receiving = false
receiver_inside has_datagram = false
receiver_inside testing = true
receiver_inside about_to_wait = true
receiver_inside asleep = false
receiver_inside woken = false
receiver_inside showing = true
receiver_inside finished = false

abbrev pub holder : Bool → Bool → Option Thread
holder true r = some send_thread
holder false true = some recv_thread
holder false false = none

-- The line of the user has been taken.
abbrev pub has_line : Sender → Bool
has_line reading = false
has_line keyed = false
has_line entered = false
has_line line_ready = true
has_line deciding = true
has_line locking = true
has_line prompting = true
has_line prompted = true
has_line leaving = true
has_line ended = true

abbrev pub has_left : Sender → Bool
has_left reading = false
has_left keyed = false
has_left entered = false
has_left line_ready = false
has_left deciding = false
has_left locking = false
has_left prompting = false
has_left prompted = false
has_left leaving = true
has_left ended = true

pub broadcast_inside : (r : Receiver) → receiver_inside (broadcast r) ≡ receiver_inside r
broadcast_inside head = refl
broadcast_inside receiving = refl
broadcast_inside has_datagram = refl
broadcast_inside testing = refl
broadcast_inside about_to_wait = refl
broadcast_inside asleep = refl
broadcast_inside woken = refl
broadcast_inside showing = refl
broadcast_inside finished = refl

pub free : (a b : Bool) → none ≡ holder a b → (a ≡ false) × (b ≡ false)
free true b e = cc
free false true e = cc
free false false e = (refl, refl)
