-- ===== src/Sender/Socket.antt =====
-- The raw socket of jpcap-0.7/src/c/JpcapSender.c across its native methods.
use redes1grupal.Base.{ℕ, ◌≡◌, arith, none, some}
use redes1grupal.Memory.{socket_open}
use redes1grupal.Native.{Pcap, Native}
use redes1grupal.Sender.{native_open_raw_socket, native_close_raw_socket}

module _ (pcap : Pcap) where
  -- After a raw socket was opened and closed, no other can be opened: the number of the closed one
  -- is kept, so that opening throws, changes nothing, and never asks the system for a socket.
  pub native_open_raw_socket-closed :
      (n : Native pcap) (fd : ℕ)
      → n.soc_num ≡ none
      → (pcap.socket n.world).0 ≡ some fd
      → let n₁ = (native_open_raw_socket pcap n).1 in
        let n₂ = native_close_raw_socket pcap n₁ in
        ((native_open_raw_socket pcap n).0 ≡ none)
        × (n₂.soc_num ≡ some fd)
        × (native_open_raw_socket pcap n₂ ≡ (some socket_open, n₂))
  unfolding native_open_raw_socket native_close_raw_socket
  native_open_raw_socket-closed n fd closed given = ground (arith, closed, given)
