-- ===== src/GetPacket.antt =====
-- `get_packet` of jpcap-0.7/src/c/JpcapCaptor.c: a captured frame made into a packet object.
-- `Classify` finds the protocols, `Assemble` fills the object in.
pub mod Shorts
pub mod Classify
pub mod Assemble
pub mod Ethernet
pub mod ArpFrame
pub mod Skip
pub mod Unread
