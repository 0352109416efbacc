-- ===== src/JpcapSub.antt =====
-- The constants of jpcap-0.7/src/c/Jpcap_sub.h.
use redes1grupal.Base.{ℕ}

abbrev pub max_number_of_instance : ℕ
max_number_of_instance = 255

abbrev pub ipv4hdrlen : ℕ
ipv4hdrlen = 20

abbrev pub tcphdrlen : ℕ
tcphdrlen = 20

abbrev pub udphdrlen : ℕ
udphdrlen = 8

abbrev pub icmphdrlen : ℕ
icmphdrlen = 8

abbrev pub max_packet_size : ℕ
max_packet_size = 1600
