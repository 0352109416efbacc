-- ===== src/Native.antt =====
-- The native state that jpcap-0.7/src/c/JpcapCaptor.c and JpcapSender.c keep in global tables, one
-- row for each instance, and libpcap and the sockets as an interface.
use redes1grupal.Base.{ℕ, Bool, true, false, Option, none, some, List, ◌==◌, if◌then◌else◌}
use redes1grupal.Memory.{Bytes}
use Prim.Native.String.{String}

-- What `pcap_next_ex` reports: a packet, a time out (0), an error (-1), the end of the file (-2).
-- A record of a capture holds the seconds, the microseconds, `caplen`, `len` and the bytes.
pub record Capture : Type 0 where
  pub sec : ℕ
  pub usec : ℕ
  pub caplen : ℕ
  pub len : ℕ
  pub bytes : Bytes

pub data NextResult : Type 0 where
  captured : Capture → NextResult
  no_data : NextResult
  timed_out : NextResult
  failed : NextResult
  end_of_file : NextResult

-- The functions of libpcap and of the operating system that the code calls. Each may change the
-- world; a null pointer or a negative result is `none` or `false`. A `pcap_t *` is its address.
-- `set_timeout` and `get_timeout` are `setsockopt` and `getsockopt` with SO_RCVTIMEO on the descriptor
-- of the handle, for a `struct timeval`.
pub record Pcap : Type 1 where
  pub World : Type 0
  pub open_live : String → ℕ → ℕ → ℕ → World → Option ℕ × World
  pub open_offline : String → World → Option ℕ × World
  pub close : ℕ → World → World
  pub datalink : ℕ → ℕ
  pub lookupnet : String → World → Option (ℕ × ℕ)
  pub sendpacket : ℕ → List ℕ → World → Bool × World
  pub next_ex : ℕ → World → NextResult × World
  pub compile : ℕ → String → Bool → ℕ → World → Bool × World
  pub setfilter : ℕ → World → Bool × World
  pub stats : ℕ → World → Option (ℕ × ℕ) × World
  pub setnonblock : ℕ → Bool → World → World
  pub getnonblock : ℕ → World → ℕ × World
  pub breakloop : ℕ → World → World
  pub set_timeout : ℕ → ℕ × ℕ → World → Bool × World
  pub get_timeout : ℕ → World → Option (ℕ × ℕ)
  pub dump_open : ℕ → String → World → Bool × World
  pub dump : ℕ × ℕ × ℕ × ℕ → List ℕ → World → World
  pub dump_close : World → World
  pub socket : World → Option ℕ × World
  pub sendto : ℕ → List ℕ → List ℕ → World → Bool × World
  pub close_socket : ℕ → World → World

-- `f[i] = v`
abbrev pub update {ℓ} : {A : Type ℓ} → (ℕ → A) → ℕ → A → ℕ → A
update f i v j = if j == i then v else f j

-- The messages that the open functions return to Java; `none` is success.
pub data Message : Type 0 where
  another_instance : Message
  no_device : Message
  not_instantiated : Message
  pcap_message : Message

module _ (pcap : Pcap) where
  -- `env` stands for the `JNIEnv *` of an instance. `soc_num` is `none` while it is negative.
  -- `pcdd` and `pdt` are those of JpcapWriter.c. `live` says which `pcap_t *` are not freed: it is
  -- no variable of the program, and every use of a freed one is a fault.
  pub record Native : Type 0 where
    pub pcds : ℕ → Option ℕ
    pub jni_envs : ℕ → ℕ
    pub linktypes : ℕ → ℕ
    pub netnums : ℕ → ℕ
    pub netmasks : ℕ → ℕ
    pub soc_num : Option ℕ
    pub pcdd : Option ℕ
    pub pdt : Bool
    pub live : ℕ → Bool
    pub world : pcap.World

  -- `pcds[id] = handle` after an open call.
  unfoldable pub opened : ℕ → Option ℕ → pcap.World → Native → Native
  opened id none w n = record n { pcds = update n.pcds id none; world = w }
  opened id (some h) w n = record n {
    pcds = update n.pcds id (some h);
    live = update n.live h true;
    world = w;
  }

  -- `if(pcds[id]!=NULL) pcap_close(pcds[id]); pcds[id]=NULL;`
  unfoldable pub close_handle : ℕ → Native → Option Native
  close_handle id n = elim (n.pcds id) [
    | none ↦ some (record n { pcds = update n.pcds id none })
    | some h ↦
        if n.live h
        then some (record n {
          pcds = update n.pcds id none;
          live = update n.live h false;
          world = pcap.close h n.world;
        })
        else none
  ]
