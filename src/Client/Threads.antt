-- ===== src/Client/Threads.antt =====
-- The two threads of the client (client.c, `recv_thread` and `send_thread`): the flags `writing` and
-- `logout`, the mutex and the condition, as a step relation. Each step is one access to these; what a
-- thread does between two of them does not matter here. `pthread_cond_wait` gives the mutex up and
-- falls asleep in one step, and may wake without a broadcast.
pub mod Holders
pub mod Exclusion
pub mod Ending
pub mod Hanging
use shell_chat_app_multi_ser.Base.{◌≡◌, Bool, true, false, Option, none, some}

-- Where `send_thread` is: it waits for a key; it has set `writing`; it has a line, before and after
-- `writing` is reset; it acts on the line; before the mutex for the prompt, with it, and after the
-- broadcast there; after `logout` is set; behind its loop.
pub data Sender : Type 0 where
  reading keyed entered line_ready deciding locking prompting prompted leaving ended : Sender

-- Where `recv_thread` is: at the head of its loop; at `recvfrom`; with a datagram before the mutex; at the
-- test of `writing`; at the call of `pthread_cond_wait`; asleep in it; woken, before the mutex; showing
-- the datagram; behind its loop.
pub data Receiver : Type 0 where
  head receiving has_datagram testing about_to_wait asleep woken showing finished : Receiver

pub data Thread : Type 0 where
  send_thread recv_thread : Thread

pub record World : Type 0 where
  pub sender : Sender
  pub receiver : Receiver
  pub writing : Bool
  pub logout : Bool
  pub lock : Option Thread

-- When the threads start.
abbrev pub first_world : World
first_world = record {
  sender = reading;
  receiver = head;
  writing = false;
  logout = false;
  lock = none;
}

-- `pthread_cond_broadcast`
abbrev pub broadcast : Receiver → Receiver
broadcast asleep = woken
broadcast head = head
broadcast receiving = receiving
broadcast has_datagram = has_datagram
broadcast testing = testing
broadcast about_to_wait = about_to_wait
broadcast woken = woken
broadcast showing = showing
broadcast finished = finished

-- One access of `send_thread`.
pub data SenderStep : World → World → Type 0 where
  key :
      (w : World) → w.sender ≡ reading → SenderStep w (record w { sender = keyed; writing = true })
  key_told :
      (w : World)
      → w.sender ≡ keyed
      → SenderStep w (record w { sender = reading; receiver = broadcast w.receiver })
  end_of_line : (w : World) → w.sender ≡ reading → SenderStep w (record w { sender = entered })
  writing_reset :
      (w : World)
      → w.sender ≡ entered
      → SenderStep w (record w { sender = line_ready; writing = false })
  line_told :
      (w : World)
      → w.sender ≡ line_ready
      → SenderStep w (record w { sender = deciding; receiver = broadcast w.receiver })
  without_prompt : (w : World) → w.sender ≡ deciding → SenderStep w (record w { sender = reading })
  with_prompt : (w : World) → w.sender ≡ deciding → SenderStep w (record w { sender = locking })
  prompt_lock :
      (w : World)
      → w.sender ≡ locking
      → w.lock ≡ none
      → SenderStep w (record w { sender = prompting; lock = some send_thread })
  prompt_told :
      (w : World)
      → w.sender ≡ prompting
      → SenderStep w (record w { sender = prompted; receiver = broadcast w.receiver })
  prompt_unlock :
      (w : World) → w.sender ≡ prompted → SenderStep w (record w { sender = reading; lock = none })
  set_logout :
      (w : World)
      → w.sender ≡ deciding
      → SenderStep w (record w { sender = leaving; logout = true })
  logout_told :
      (w : World)
      → w.sender ≡ leaving
      → SenderStep w (record w { sender = ended; receiver = broadcast w.receiver })

-- One access of `recv_thread`. Nobody else sleeps when it broadcasts, before it gives the mutex up.
pub data ReceiverStep : World → World → Type 0 where
  goes_on :
      (w : World)
      → w.receiver ≡ head
      → w.logout ≡ false
      → ReceiverStep w (record w { receiver = receiving })
  stops :
      (w : World)
      → w.receiver ≡ head
      → w.logout ≡ true
      → ReceiverStep w (record w { receiver = finished })
  no_datagram : (w : World) → w.receiver ≡ receiving → ReceiverStep w (record w { receiver = head })
  datagram :
      (w : World) → w.receiver ≡ receiving → ReceiverStep w (record w { receiver = has_datagram })
  show_lock :
      (w : World)
      → w.receiver ≡ has_datagram
      → w.lock ≡ none
      → ReceiverStep w (record w { receiver = testing; lock = some recv_thread })
  must_wait :
      (w : World)
      → w.receiver ≡ testing
      → w.writing ≡ true
      → ReceiverStep w (record w { receiver = about_to_wait })
  may_show :
      (w : World)
      → w.receiver ≡ testing
      → w.writing ≡ false
      → ReceiverStep w (record w { receiver = showing })
  wait :
      (w : World)
      → w.receiver ≡ about_to_wait
      → ReceiverStep w (record w { receiver = asleep; lock = none })
  wait_lock :
      (w : World)
      → w.receiver ≡ woken
      → w.lock ≡ none
      → ReceiverStep w (record w { receiver = testing; lock = some recv_thread })
  show_unlock :
      (w : World)
      → w.receiver ≡ showing
      → ReceiverStep w (record w { receiver = head; lock = none })

-- A step of either thread, or a wake-up without a broadcast.
pub data Step (w : World) : World → Type 0 where
  by_sender : (v : World) → SenderStep w v → Step w v
  by_receiver : (v : World) → ReceiverStep w v → Step w v
  spurious : w.receiver ≡ asleep → Step w (record w { receiver = woken })

pub data Steps : World → World → Type 0 where
  here : (w : World) → Steps w w
  and_then : (u v w : World) → Steps u v → Step v w → Steps u w
