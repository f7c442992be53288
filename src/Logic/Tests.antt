-- ===== src/Logic/Tests.antt =====
-- A run of the thread that talks to the gate, and the theorem at concrete messages.
use qclib.Base.{◌≡◌, refl, arith, true, List, [], ◌∷◌, ◌++◌}
use qclib.LoopArray.{LoopArray}
use qclib.LogicThread.{LogicThread, waiting}
use qclib.LogicThread.Order.{IsOrdered}
use qclib.Packets.{Message, le, get_le, packet_size, round_num}
use qclib.Packets.Built.{frame}
use qclib.Packets.Tests.{hello}
use qclib.Tcp.Client.{new_tcp_client, send_message}
use qclib.Gate.{heart_cmd}
use qclib.Packets.{transit_cmd}
use qclib.Logic.{LogicManager, on_client_msg, client_msg}
use qclib.Logic.Taken.{transits, on_client_msg-transits}

abbrev no_messages : LoopArray Message
no_messages = record { head = 0; tail = 0; size = 0; capacity = 3; buf = [] ∷ [] ∷ [] ∷ [] }

abbrev idle_thread : LogicThread Message
idle_thread = record {
  outer = no_messages;
  inner = no_messages;
  mine = no_messages;
  phase = waiting;
  accepted = [];
  dispatched = [];
}

abbrev manager : LogicManager
manager = record {
  m_tcp_client = record (new_tcp_client 8000 1) { connection = true };
  m_main_logic_thread = idle_thread;
  msg_buffer = [];
  svr_buffer = [];
}

-- A message from a client, a heartbeat and a message from a client.
abbrev arrived : List Message
arrived = frame transit_cmd hello ∷ frame heart_cmd [] ∷ frame transit_cmd [] ∷ []

heartbeat_back : (on_client_msg arrived manager).m_tcp_client.sent ≡ frame heart_cmd [] ∷ []
unfolding on_client_msg client_msg send_message le get_le packet_size round_num
heartbeat_back = refl

idle_thread-IsOrdered : IsOrdered [] idle_thread
idle_thread-IsOrdered = record {
  outer_ok = omega arith;
  inner_ok = omega arith;
  mine_ok = omega arith;
  phase_ok = refl;
  fifo = refl;
}

on_client_msg-transits_example :
    ((on_client_msg arrived manager).m_main_logic_thread.accepted ≡ [] ++ transits arrived)
    × IsOrdered [] (on_client_msg arrived manager).m_main_logic_thread
unfolding le get_le
on_client_msg-transits_example =
    on_client_msg-transits [] arrived manager idle_thread-IsOrdered (omega arith)
