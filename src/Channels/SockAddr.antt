-- ===== src/Channels/SockAddr.antt =====
-- `comp_sockaddr`: equality of address and port.
use shell_chat_app_multi_ser.Base.{◌≡◌, refl, true, ◌↔◌, arith}
use shell_chat_app_multi_ser.Duckchat.{Address}
use shell_chat_app_multi_ser.Channels.{comp_sockaddr}

pub comp_sockaddr_iff : (a b : Address) → (comp_sockaddr a b ≡ true) ↔ (a ≡ b)
unfolding comp_sockaddr
comp_sockaddr_iff a b = (λ h. ground arith, λ e. ground arith)

pub comp_sockaddr_refl : (a : Address) → comp_sockaddr a a ≡ true
comp_sockaddr_refl a = (comp_sockaddr_iff a a).1 refl
