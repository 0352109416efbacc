-- ===== src/ErrorBuffers.antt =====
-- `pcap_errbuf` of jpcap-0.7/src/c/JpcapCaptor.c, into which libpcap writes its messages. It is
-- declared as `char pcap_errbuf[PCAP_ERRBUF_SIZE][MAX_NUMBER_OF_INSTANCE]`, so that the buffer
-- `pcap_errbuf[id]` starts 255 bytes behind that of the instance before.
pub mod Laws
use redes1grupal.Base.{zero, ◌==◌, if◌then◌else◌, ◌∷◌, ◌++◌, ◌+◌, suc, take, ◌-◌, [], List, ◌*◌, ℕ}
use redes1grupal.Memory.{write_bytes, Bytes}
use redes1grupal.JpcapSub.{max_number_of_instance}

-- `PCAP_ERRBUF_SIZE` of libpcap
abbrev pub pcap_errbuf_size : ℕ
pcap_errbuf_size = 256

-- `pcap_errbuf[id]`
abbrev pub errbuf : ℕ → ℕ
errbuf id = id * max_number_of_instance

-- The bytes in front of the first zero, `n` at most.
unfoldable pub read_string : ℕ → ℕ → Bytes → List ℕ
read_string zero a f = []
read_string (suc n) a f = let rest = read_string n (a + 1) f in if f a == 0 then [] else f a ∷ rest

-- `NewString(pcap_errbuf[id])`, to the end of the array of arrays.
unfoldable pub get_error_message : ℕ → Bytes → List ℕ
get_error_message id f =
    read_string (pcap_errbuf_size * max_number_of_instance - errbuf id) (errbuf id) f
