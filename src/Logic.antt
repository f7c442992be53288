-- ===== src/Logic.antt =====
-- projects/logic_svr/logic_manager.cpp: the thread of the logic server that talks to the gate, over its
-- `TcpClient` and the `LogicThread`. `AckLoginServer` is generated code, whose bytes are a parameter, as
-- are the ids of the server.
pub mod Taken
mod Tests
use qclib.Base.{ℕ, List, [], ◌∷◌, Option, some, ◌==◌, if◌then◌else◌, ◌>>=◌, length}
use qclib.LogicThread.{LogicThread, have_message, on_set_message, on_notify}
use qclib.Packets.{
  Bytes, Message, MsgInServer, m_data_len, m_whole_cmd, set_message, set_other_svr_msg,
  set_server_message_ack, transit_cmd,
}
use qclib.Tcp.{TcpEvent, tcp_event_connected}
use qclib.Tcp.Client.{TcpClient, send_message, receive_message, receive_event}
use qclib.Gate.{svrlogin_cmd, svrlogin_ack, heart_cmd}

-- The client, the hand-over to the logic thread and the two buffers of this thread.
pub record LogicManager : Type 0 where
  pub m_tcp_client : TcpClient
  pub m_main_logic_thread : LogicThread Message
  pub msg_buffer : Bytes
  pub svr_buffer : Bytes

-- TCP_EVENT_CONNECTED: the login at the gate. Other events are only written to the log.
unfoldable pub client_event : Bytes → TcpEvent → LogicManager → Option LogicManager
client_event login_gate evt l = elim evt.m_event_id [
  | tcp_event_connected ↦
      let header : MsgInServer = record { m_user_only_id = 0; m_server_id = 1 } in
      set_message l.msg_buffer svrlogin_cmd login_gate (length login_gate)
      >>= λ (inner_msg : Message).
          set_other_svr_msg l.svr_buffer svrlogin_cmd header inner_msg (m_data_len inner_msg)
          >>= λ (msg : Message). some (record l {
            msg_buffer = inner_msg;
            svr_buffer = msg;
            m_tcp_client = send_message msg l.m_tcp_client;
          })
  | _ ↦ some l
]

unfoldable pub on_client_event : Bytes → List TcpEvent → LogicManager → Option LogicManager
on_client_event login_gate [] l = some l
on_client_event login_gate (evt ∷ evts) l =
    client_event login_gate evt l >>= on_client_event login_gate evts

-- One turn of the loop of `OnClientMsg`.
unfoldable pub client_msg : Message → LogicManager → LogicManager
client_msg msg l =
    let cmd = m_whole_cmd msg in
    if cmd == svrlogin_ack
    then l
    else (if cmd == heart_cmd
        then record l { m_tcp_client = send_message msg l.m_tcp_client }
        else (if cmd == transit_cmd
            then record l { m_main_logic_thread = on_set_message l.m_main_logic_thread msg }
            else l))

unfoldable pub on_client_msg : List Message → LogicManager → LogicManager
on_client_msg [] l = l
on_client_msg (msg ∷ msgs) l = on_client_msg msgs (client_msg msg l)

-- `SendMsgToUser`; `server_id` is THIS_SERVER_ID, and the buffer is the calling thread's.
unfoldable pub send_msg_to_user : ℕ → ℕ → Message → LogicManager → Option LogicManager
send_msg_to_user server_id only_id msg l =
    let header : MsgInServer = record { m_user_only_id = only_id; m_server_id = server_id } in
    set_server_message_ack l.svr_buffer header msg (m_data_len msg) >>= λ (packed : Message).
    some (record l { svr_buffer = packed; m_tcp_client = send_message packed l.m_tcp_client })

-- One round of the loop of `MsgThread`, without the saving every ten minutes: messages, `Notify` where
-- there are any, then events. `null` is the message that an empty queue gives.
unfoldable pub msg_round : Bytes → Message → LogicManager → Option LogicManager
msg_round login_gate null l =
    let (msgs, client) = receive_message [] l.m_tcp_client in
    let handled = on_client_msg msgs (record l { m_tcp_client = client }) in
    notified handled >>= λ (n : LogicManager).
    let (evts, client') = receive_event [] n.m_tcp_client in
    on_client_event login_gate evts (record n { m_tcp_client = client' })
  where
    notified : LogicManager → Option LogicManager
    notified h =
        if have_message h.m_main_logic_thread
        then (on_notify null h.m_main_logic_thread >>= λ (t : LogicThread Message).
            some (record h { m_main_logic_thread = t }))
        else some h
