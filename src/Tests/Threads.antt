-- ===== src/Tests/Threads.antt =====
-- Threads: some courses of the two threads of a client.
use shell_chat_app_multi_ser.Base.{refl, true, ◌≡◌, ◌≢◌, ◌≤◌}
use shell_chat_app_multi_ser.Client.Threads.{
  Step, Steps, World, and_then, by_receiver, by_sender, end_of_line, ended, finished, first_world,
  here, keyed, line_told, logout_told, set_logout, stops, writing_reset,
}
use shell_chat_app_multi_ser.Client.Threads.Ending.{count, left-finishes}
use shell_chat_app_multi_ser.Client.Threads.Hanging.{IsStuck, leaving_may_hang}

abbrev typing_now : World
typing_now = record first_world { sender = keyed; writing = true }

-- The user has typed /exit, and the receiver is still at the head of its loop.
abbrev left_now : World
left_now = record first_world { sender = ended; logout = true }

left_now-Steps : Steps first_world left_now
left_now-Steps =
    let s1 = and_then _ _ _ (here first_world) (by_sender _ (end_of_line _ refl)) in
    let s2 = and_then _ _ _ s1 (by_sender _ (writing_reset _ refl)) in
    let s3 = and_then _ _ _ s2 (by_sender _ (line_told _ refl)) in
    let s4 = and_then _ _ _ s3 (by_sender _ (set_logout _ refl)) in
    and_then _ _ _ s4 (by_sender _ (logout_told _ refl))

abbrev all_done : World
all_done = record left_now { receiver = finished }

abbrev one_step : Steps left_now all_done
one_step = and_then _ _ _ (here left_now) (by_receiver _ (stops left_now refl refl))

left-finishes_example :
    (count one_step ≤ 5) × (all_done.receiver ≢ finished → (u : World) × Step all_done u)
left-finishes_example = left-finishes left_now all_done left_now-Steps refl refl one_step

leaving_may_hang_example : (v : World) × Steps first_world v × (v.sender ≡ ended) × IsStuck v
leaving_may_hang_example = leaving_may_hang first_world refl refl refl refl
