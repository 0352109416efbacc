-- ===== src/Session/Batches.antt =====
-- Several packets that are sent, and captured in one call of `processPacket`
-- (jpcap-0.7/src/c/JpcapCaptor.c).
use redes1grupal.Base.{none, some, ◌≡◌, ℕ, List}
use redes1grupal.Memory.{Bytes, Bytes}
use redes1grupal.Packet.{Kind, DatalinkPacket, Packet}
use redes1grupal.Captor.{Frame}
use redes1grupal.Session.{Holds}
use redes1grupal.Native.{Native}
use redes1grupal.Sender.{build_frame}
use redes1grupal.Sender.Captured.{capture_of}

-- A packet that is sent, what is to be read of it, and the capture of its frame: the time stamp, the
-- bytes behind the frame, and what the uninitialised variables hold.
pub record Sent : Type 0 where
  pub packet : Packet
  pub link : DatalinkPacket
  pub payload : List ℕ
  pub kind : Kind
  pub sec : ℕ
  pub usec : ℕ
  pub stale : ℕ
  pub extra : ℕ × ℕ
  pub behind : Bytes

-- The frame of a packet, as the captor gets it.
pub data IsCapturedOf (stack : Bytes) (s : Sent) : Frame → Type 0 where
  captured_of :
      (frame : List ℕ)
      → build_frame stack s.packet ≡ some (frame, none)
      → IsCapturedOf stack s (s.stale, s.extra, capture_of s.sec s.usec s.behind frame)

-- The packet has the parts of what was sent.
abbrev pub IsReadOf : Sent → Packet → Type 0
IsReadOf s q = Holds q s.link s.payload s.kind
