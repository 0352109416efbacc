-- ===== src/Lib.antt =====
-- The two halves of this repository: the native half of jpcap 0.7, a packet capture library, which are
-- the C files of jpcap-0.7/src/c, and the program src/r0p3 on top of it, which asks the hosts of the
-- local network for their Ethernet addresses.
--
-- A Java program calls three classes of native methods. `JpcapCaptor` opens a device or a file
-- through libpcap and turns captured frames into packet objects; `JpcapSender` lays packet objects
-- out as frames and sends them through libpcap or a raw socket; `JpcapWriter` writes packets to a
-- dump file. They share one table of handles, indexed by the instance.
--
-- The program has a thread for each of three layers and two protocols. `Physical` captures and sends,
-- `Logical` filters by Ethernet address and writes the header of what is sent, `Network` passes a
-- packet to `Arp` or `Ip`; each hands packets to the next through a list. The menu of `Main` asks for
-- an address, which `Arp` looks up in its table or sends a request for.
--
-- The files and what they model:
--   Base         names and lemmas that all files share: tests, lists, byte order, masks, chains
--   Memory       buffers that the C code reads and writes through pointers, and JNI array regions
--   Packet       the Java packet classes as records (jpcap-0.7/src/java/jpcap/packet)
--   JpcapSub     the constants of jpcap-0.7/src/c/Jpcap_sub.h
--   Checksum     `in_cksum` and `in_cksum2` (JpcapSender.c)
--   Datalink, Ip, Ipv6, Tcp, Udp, Icmp, Arp
--                `analyze_x` and `set_x` of packet_datalink.c, packet_ip.c and so on
--   SetPacket    `set_packet` (JpcapSender.c), which calls all the `set_x`
--   Native       the global tables of JpcapCaptor.c and JpcapSender.c, and libpcap as the record `Pcap`
--   Sender       the native methods of `JpcapSender`: `native_send_packet` is `nativeSendPacket`
--   GetPacket    `get_packet` (JpcapCaptor.c): Classify finds the protocols, Assemble calls the
--                `analyze_x`, Shorts has the 16-bit arithmetic of the lengths
--   Captor       the native methods of `JpcapCaptor`; Control has those that ask or set something
--   Session      a sender and a captor on one network; Batches has several packets in one call
--   Handles      histories of the calls of both classes that open, use and close a handle
--   ErrorBuffers `pcap_errbuf` and `getErrorMessage` (JpcapCaptor.c); what libpcap writes is a parameter
--   Writer       the native methods of `JpcapWriter`
--   Interfaces   `getAddressByteArray` and `getDeviceList` (JpcapCaptor.c)
--   InstanceIds  the numbers of instances, jpcap-0.7/src/java/jpcap/JpcapInstance.java
--   SelfPacket   src/r0p3/layers/SelfPacket.java, a packet on its way through the layers
--   Logical      what becomes of one packet in src/r0p3/layers/Logical.java; Filter has its filter
--   ArpTable     the table, the messages and the handling of src/r0p3/protocols/Arp.java
--   Addresses    the checks of typed addresses (Network.java, Arp.java and Logical.java)
--   Workers      what the threads of src/r0p3 have in common (Layer.java, SelfProtocol.java)
--   Stack        the threads of src/r0p3 (Physical, Logical, Network, Arp, Ip and the menu of Main)
--                as steps on one state: `physical_turn` is one test and round of the loop of
--                `Physical.run`, and so on
--   Examples     concrete packets and captures at which the theorems are applied
--
-- How the code is represented. Memory is a function from addresses to bytes with a size; an access
-- that leaves its buffer, a use of null and a use of freed memory are undefined behaviour, and make
-- the operation `none`. Bytes that the code never set are whatever the memory held before: buffers
-- on the stack have arbitrary contents, and variables that are read uninitialised are arguments.
-- The machine is little-endian with 64-bit `long`, and the code is what the preprocessor leaves on
-- Linux with INET6. Integers are natural numbers with the wrap-around of their C types written
-- out; a `short` is its 16-bit pattern, a Java integer the bit pattern that the C code sees.
--
-- Fuel: `extension_loop` of Ipv6 has one round for each byte of the capture and one more, and every
-- round that goes on has moved eight bytes; `skip_extensions` of GetPacket has as many rounds as
-- `clen` says, which every round lowers by at least eight. No other loop needs fuel.
--
-- Threads: a turn is one test of `finish` with one round of the loop, as a whole, and the turns come in
-- any order, which a list of events gives. What a thread does while it holds the lock of `Arp` is in one
-- turn, but for `requestIP`, which is two: it waits for the lock, in which main does nothing else, and
-- holds it from the question until the answer, and `Arp` makes no progress between them.
--
-- Not modelled: libpcap, the system's devices and the socket calls, of which `Pcap` and `DeviceApi` say
-- only what type they have; set-up of the JNI class and method handles; the Windows and FreeBSD
-- branches; the methods of the Java packet classes other than those named, and what the Java side of
-- `JpcapCaptor` and `JpcapSender` does but take instance numbers; in src/r0p3 what is printed, the
-- choice of the interface, and two threads inside one unsynchronised `LinkedList` at once, whose
-- outcome Java does not define.
pub mod Base
pub mod Memory
pub mod Packet
pub mod JpcapSub
pub mod Checksum
pub mod Datalink
pub mod Ip
pub mod Ipv6
pub mod Tcp
pub mod Udp
pub mod Icmp
pub mod Arp
pub mod SetPacket
pub mod Native
pub mod Sender
pub mod GetPacket
pub mod Captor
pub mod Session
pub mod Handles
pub mod ErrorBuffers
pub mod Writer
pub mod Interfaces
pub mod SelfPacket
pub mod Logical
pub mod ArpTable
pub mod InstanceIds
pub mod Addresses
pub mod Workers
pub mod Stack
pub mod Examples
