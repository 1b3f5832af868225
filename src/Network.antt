-- ===== src/Network.antt =====
-- Clients and servers over datagrams of bytes: what `socket_send` hands to the network (server.c,
-- client.c), and the server's `main` from `socket_recv` to the cases of its switch.
pub mod Says
pub mod Passes
pub mod Asks
pub mod Enters
pub mod Flood
use shell_chat_app_multi_ser.Base.{ℕ, ◌≡◌, [], Text, ok}
use shell_chat_app_multi_ser.Duckchat.{Address}
use shell_chat_app_multi_ser.Wire.{Bytes, encode, encode_reply, parse, socket_recv}
use shell_chat_app_multi_ser.Server.State.{M, Message, to_server, to_client, lift, ◌>>=◌}
use shell_chat_app_multi_ser.Server.Rooms.{Next}
use shell_chat_app_multi_ser.Server.Round.{dispatch}
use shell_chat_app_multi_ser.Client.Screen.{Screen, on_datagram}
use shell_chat_app_multi_ser.Client.Screen.Shows.{visible}

-- The bytes that are sent. `before` is what a block from `malloc` held.
abbrev pub message_bytes : Bytes → Message → Bytes
message_bytes before (to_server rq) = encode rq
message_bytes before (to_client reply) = encode_reply before reply

-- A datagram from an address comes, into a buffer of `size` bytes that holds what was there.
unfoldable pub receive_datagram : ℕ → ℕ → ℕ → Address → Bytes → Bytes → M Next
receive_datagram size now random from datagram buffer = do
  rq ← lift (parse (socket_recv size datagram buffer))
  dispatch now random from rq

-- A client that receives the message into a buffer of `size` bytes shows just this text, and nothing on
-- standard error, whatever a block from `malloc` held.
abbrev pub Displays : ℕ → Message → Text → Type 0
Displays size message text =
    (before : Bytes)
    → (s : Screen) × (on_datagram size (message_bytes before message) ≡ ok s)
      × (visible s.out ≡ text)
      × (s.errors ≡ [])
