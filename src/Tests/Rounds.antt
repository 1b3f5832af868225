-- ===== src/Tests/Rounds.antt =====
-- Rounds: the start, the check of the timers and the renewals.
use shell_chat_app_multi_ser.Adjacent.{Server, min_2}
use shell_chat_app_multi_ser.Adjacent.Expiry.{TimedAt}
use shell_chat_app_multi_ser.Base.{
  List, [], arith, length, out_of_bounds, refl, suc, zero, ℕ, ◌+◌, ◌<◌, ◌∷◌, ◌≡◌, ◌≤◌,
}
use shell_chat_app_multi_ser.Server.Round.{check_timers, renew}
use shell_chat_app_multi_ser.Server.Round.Check.{IsReady, IsRenewed, check_timers-total}
use shell_chat_app_multi_ser.Server.Round.Renewal.{renew-fresh, renew_overrun}
use shell_chat_app_multi_ser.Server.State.{State, done, failed}
use shell_chat_app_multi_ser.Tests.Setup.{
  beyond, common_channel, left, left-IsSound, left-TimedAt, open_channels, right, right-IsSound,
  ruby_channel, talking, talking-Represents,
}

-- The state `talking` with one neighbour.
abbrev alone : State
alone = record talking { srvrs = left ∷ [] }

abbrev left-IsReady : IsReady left
left-IsReady = record { sound = left-IsSound; timed = left-TimedAt }

left-renewed : (j : ℕ) (low : 1 ≤ j) (high : j < 2) → 150 ≤ (left-TimedAt j low high).time + min_2
unfolding left-TimedAt
left-renewed zero low high = elim low [ ]
left-renewed (suc zero) low high = omega arith
left-renewed (suc (suc j)) low high = elim (beyond j high) [ ]

pub left-IsRenewed : IsRenewed 150 left
left-IsRenewed = record { ready = left-IsReady; renewed = left-renewed }

right-alone : (j : ℕ) → 1 ≤ j → j < 1 → ⊥
right-alone j low high = omega arith

abbrev right-TimedAt : (j : ℕ) → 1 ≤ j → j < 1 → TimedAt right j
right-TimedAt j low high = elim (right-alone j low high) [ ]

abbrev right-IsReady : IsReady right
right-IsReady = record { sound = right-IsSound; timed = right-TimedAt }

pub right-IsRenewed : IsRenewed 150 right
right-IsRenewed = record {
  ready = right-IsReady;
  renewed = λ j low high. elim (right-alone j low high) [ ];
}

check_timers-total_example :
    (srvrs : List Server) × (strays : ℕ) × (check_timers 900 talking
      ≡ done tt (record talking { srvrs = srvrs; stray_writes = talking.stray_writes + strays }))
    × (length srvrs ≡ length talking.srvrs)
check_timers-total_example = check_timers-total 900 talking (left-IsReady, (right-IsReady, tt))

renew-fresh_example : renew 150 talking ≡ done tt talking
renew-fresh_example =
    renew-fresh 150 talking open_channels talking-Represents.channels
      ((omega arith), ((omega arith), tt))

renew_overrun_example : renew 200 alone ≡ failed out_of_bounds alone
renew_overrun_example =
    renew_overrun 200 alone common_channel ruby_channel [] left talking-Represents.channels
      (omega arith) refl (omega arith)
