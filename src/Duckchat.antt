-- ===== src/Duckchat.antt =====
-- duckchat.h and the limits of channels.h: the lengths of the protocol's fields, and the socket
-- addresses that the programs compare (`struct sockaddr_in`, of which address and port are read).
use shell_chat_app_multi_ser.Base.{ℕ, Text, codes}

abbrev pub username_max : ℕ
username_max = 32

abbrev pub channel_max : ℕ
channel_max = 32

abbrev pub say_max : ℕ
say_max = 64

abbrev pub max_users : ℕ
max_users = 32

abbrev pub max_channels : ℕ
max_channels = 64

pub record Address : Type 0 where
  pub sin_addr : ℕ
  pub sin_port : ℕ

-- The channel that every client starts in.
abbrev pub common : Text
common = codes "Common"
