-- ===== src/Tests/Typing.antt =====
-- Typing: lines at a client that has joined two channels.
use shell_chat_app_multi_ser.Base.{[], false, refl, replicate, ◌∷◌}
use shell_chat_app_multi_ser.Cells.{full, uninit}
use shell_chat_app_multi_ser.Client.Loop.{Client}
use shell_chat_app_multi_ser.Client.Waiting.{Waits}
use shell_chat_app_multi_ser.Duckchat.{common}
use shell_chat_app_multi_ser.Tests.Setup.{ruby}

-- A client in Ruby and Common, with a buffer of 80 bytes.
abbrev pub waiting : Client
waiting = record {
  buff = replicate 80 0;
  joined_chnls = full common ∷ full ruby ∷ replicate 30 uninit;
  joined_len = 2;
  active_channel = ruby;
  logout = false;
  requests = [];
  notices = [];
}

pub waiting-Waits : Waits waiting 80 (common ∷ ruby ∷ [])
waiting-Waits = record {
  cleared = refl;
  runs = refl;
  joined = (refl, (refl, tt));
  count = refl;
  size = refl;
}
