-- ===== src/Workers.antt =====
-- What the threads of src/r0p3 have in common: `Layer` of layers/ and `SelfProtocol` of protocols/.
use redes1grupal.Base.{Bool, true, false, List, [], ◌∷◌, ◌++◌}
use redes1grupal.SelfPacket.{SelfPacket}

-- A thread runs, has left its loop, or was ended by an exception.
pub data Status : Type 0 where
  running ended crashed : Status

-- The fields of `Layer` and `SelfProtocol` that the threads share, and the thread.
pub record Worker : Type 0 where
  pub packet_list : List SelfPacket
  pub finish : Bool
  pub status : Status

abbrev pub new_worker : Worker
new_worker = record { packet_list = []; finish = false; status = running }

-- `appendPacket`, and the methods that add to the list of the layer above or below
abbrev pub append_packet : SelfPacket → Worker → Worker
append_packet p w = record w { packet_list = w.packet_list ++ (p ∷ []) }

abbrev pub left_with : List SelfPacket → Worker → Worker
left_with rest w = record w { packet_list = rest }

-- `setFinish(true)`
abbrev pub set_finish : Worker → Worker
set_finish w = record w { finish = true }

abbrev pub leave : Status → Worker → Worker
leave status w = record w { status = status }
