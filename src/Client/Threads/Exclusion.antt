-- ===== src/Client/Threads/Exclusion.antt =====
-- Exclusion: which thread holds the mutex.
use shell_chat_app_multi_ser.Base.{◌≡◌, refl, ap, sym, ◌∙◌, Bool, true, false, ◌&&◌}
use shell_chat_app_multi_ser.Client.Threads.{
  World, first_world, Step, by_sender, by_receiver, spurious, Steps, here, and_then, SenderStep,
  key, key_told, end_of_line, writing_reset, line_told, without_prompt, with_prompt, prompt_lock,
  prompt_told, prompt_unlock, set_logout, logout_told, ReceiverStep, goes_on, stops, no_datagram,
  datagram, show_lock, must_wait, may_show, wait, wait_lock, show_unlock,
}
use shell_chat_app_multi_ser.Client.Threads.Holders.{
  sender_inside, receiver_inside, holder, has_line, has_left, broadcast_inside, free,
}

-- The mutex is held by the thread that is inside, and only one is; `writing` is reset once a line is
-- taken, and `logout` is set just when the sender leaves.
pub record IsFair (w : World) : Type 0 where
  pub held : w.lock ≡ holder (sender_inside w.sender) (receiver_inside w.receiver)
  pub apart : (sender_inside w.sender && receiver_inside w.receiver) ≡ false
  pub quiet : has_line w.sender ≡ true → w.writing ≡ false
  pub left : w.logout ≡ has_left w.sender

SenderStep-IsFair : {w v : World} → SenderStep w v → IsFair w → IsFair v
SenderStep-IsFair (key w e) h = record {
  held = rw e at h.held;
  apart = refl;
  quiet = λ l. cc;
  left = rw e at h.left;
}
SenderStep-IsFair (key_told w e) h = record {
  held = rw broadcast_inside (rw e at h.held);
  apart = refl;
  quiet = λ l. cc;
  left = rw e at h.left;
}
SenderStep-IsFair (end_of_line w e) h = record {
  held = rw e at h.held;
  apart = refl;
  quiet = λ l. cc;
  left = rw e at h.left;
}
SenderStep-IsFair (writing_reset w e) h = record {
  held = rw e at h.held;
  apart = refl;
  quiet = λ l. refl;
  left = rw e at h.left;
}
SenderStep-IsFair (line_told w e) h = record {
  held = rw broadcast_inside (rw e at h.held);
  apart = refl;
  quiet = rw e at h.quiet;
  left = rw e at h.left;
}
SenderStep-IsFair (without_prompt w e) h = record {
  held = rw e at h.held;
  apart = refl;
  quiet = λ l. cc;
  left = rw e at h.left;
}
SenderStep-IsFair (with_prompt w e) h = record {
  held = rw e at h.held;
  apart = refl;
  quiet = rw e at h.quiet;
  left = rw e at h.left;
}
SenderStep-IsFair (prompt_lock w e unheld) h = record {
  held = refl;
  apart = (free _ _ (sym unheld ∙ h.held)).1;
  quiet = rw e at h.quiet;
  left = rw e at h.left;
}
SenderStep-IsFair (prompt_told w e) h = record {
  held = rw e at h.held;
  apart = broadcast_inside w.receiver ∙ rw e at h.apart;
  quiet = rw e at h.quiet;
  left = rw e at h.left;
}
SenderStep-IsFair (prompt_unlock w e) h =
    let out : receiver_inside w.receiver ≡ false = rw e at h.apart in
    record { held = rw out refl; apart = refl; quiet = λ l. cc; left = rw e at h.left }
SenderStep-IsFair (set_logout w e) h = record {
  held = rw e at h.held;
  apart = refl;
  quiet = rw e at h.quiet;
  left = refl;
}
SenderStep-IsFair (logout_told w e) h = record {
  held = rw broadcast_inside (rw e at h.held);
  apart = refl;
  quiet = rw e at h.quiet;
  left = rw e at h.left;
}

-- While the receiver is inside, the sender is not.
alone : (a b : Bool) → (a && b) ≡ false → b ≡ true → a ≡ false
alone true b h e = cc
alone false b h e = refl

ReceiverStep-IsFair : {w v : World} → ReceiverStep w v → IsFair w → IsFair v
ReceiverStep-IsFair (goes_on w e go) h = record {
  held = rw e at h.held;
  apart = rw e at h.apart;
  quiet = h.quiet;
  left = h.left;
}
ReceiverStep-IsFair (stops w e out) h = record {
  held = rw e at h.held;
  apart = rw e at h.apart;
  quiet = h.quiet;
  left = h.left;
}
ReceiverStep-IsFair (no_datagram w e) h = record {
  held = rw e at h.held;
  apart = rw e at h.apart;
  quiet = h.quiet;
  left = h.left;
}
ReceiverStep-IsFair (datagram w e) h = record {
  held = rw e at h.held;
  apart = rw e at h.apart;
  quiet = h.quiet;
  left = h.left;
}
ReceiverStep-IsFair (show_lock w e unheld) h =
    let out = (free _ _ (sym unheld ∙ h.held)).0 in
    record { held = rw out refl; apart = rw out refl; quiet = h.quiet; left = h.left }
ReceiverStep-IsFair (must_wait w e busy) h = record {
  held = rw e at h.held;
  apart = rw e at h.apart;
  quiet = h.quiet;
  left = h.left;
}
ReceiverStep-IsFair (may_show w e calm) h = record {
  held = rw e at h.held;
  apart = rw e at h.apart;
  quiet = h.quiet;
  left = h.left;
}
ReceiverStep-IsFair (wait w e) h =
    let out = alone (sender_inside w.sender) _ h.apart (ap receiver_inside e) in
    record { held = rw out refl; apart = rw out refl; quiet = h.quiet; left = h.left }
ReceiverStep-IsFair (wait_lock w e unheld) h =
    let out = (free _ _ (sym unheld ∙ h.held)).0 in
    record { held = rw out refl; apart = rw out refl; quiet = h.quiet; left = h.left }
ReceiverStep-IsFair (show_unlock w e) h =
    let out = alone (sender_inside w.sender) _ h.apart (ap receiver_inside e) in
    record { held = rw out refl; apart = rw out refl; quiet = h.quiet; left = h.left }

pub Step-IsFair : {w v : World} → Step w v → IsFair w → IsFair v
Step-IsFair (by_sender v s) h = SenderStep-IsFair s h
Step-IsFair (by_receiver v s) h = ReceiverStep-IsFair s h
Step-IsFair (spurious e) h = record {
  held = rw e at h.held;
  apart = rw e at h.apart;
  quiet = h.quiet;
  left = h.left;
}

pub Steps-IsFair : {w v : World} → Steps w v → IsFair w → IsFair v
Steps-IsFair (here w) h = h
Steps-IsFair (and_then u v w s t) h = Step-IsFair t (Steps-IsFair s h)

pub threads-IsFair : (w : World) → Steps first_world w → IsFair w
threads-IsFair w s =
    Steps-IsFair s (record { held = refl; apart = refl; quiet = λ l. cc; left = refl })
