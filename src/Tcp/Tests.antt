-- ===== src/Tcp/Tests.antt =====
-- Runs of the server and the client, and the theorems at concrete inputs.
use qclib.Base.{◌≡◌, ◌⊎◌, refl, subst, arith, true, [], ◌∷◌, ◌++◌, none, some, take, drop}
use qclib.Table.{find, insert_new, remove, update, put}
use qclib.Packets.{Bytes, le}
use qclib.Packets.Built.{frame}
use qclib.Packets.Frames.{wire_bytes}
use qclib.Packets.Stream.{concat}
use qclib.Packets.Sent.{frame-IsWire}
use qclib.Packets.Tests.{byte_list, byte_list-IsLawful, hello}
use qclib.Tcp.{
  Conn, UserSession, TcpServer, TcpEvent, tcp_event_connected, new_tcp_server,
  on_lib_connection_callback, on_connect, on_dis_connect, add_session, send_msg_to_user,
  dis_connect,
}
use qclib.Tcp.Client.{TcpClient, new_tcp_client, send_messages}
use qclib.Tcp.Client.Delivered.{arrive, queued, send_messages-arrive}
use qclib.Tcp.Links.Reached.{
  Reached, NamedTwice, at_start, later, connects, adds_session, send_msg_to_user-owner,
}
use qclib.Tcp.Ghost.{add_session-ghost}

-- Connection 5 under the key 2, and then with the session of user 7 for server 1.
abbrev fresh_session : UserSession
fresh_session = record { m_socket_key = 2; m_user_id = 0; m_session_server_id = 0 }

abbrev connected_event : TcpEvent
connected_event = record {
  m_socket_key = 2;
  m_event_id = tcp_event_connected;
  m_error_code = 0;
  m_user_id = 0;
  m_server_id = 0;
}

abbrev pub open_server : TcpServer
open_server = record new_tcp_server {
  m_socket_key_index = 2;
  m_event_list = connected_event ∷ [];
  m_connection_map = (2, 5) ∷ [];
  contexts = (5, fresh_session) ∷ [];
}

abbrev pub named_server : TcpServer
named_server = record open_server {
  m_session_map = (7, 5) ∷ [];
  contexts = (5, record fresh_session { m_user_id = 7; m_session_server_id = 1 }) ∷ [];
}

open_server_run : on_lib_connection_callback true 5 new_tcp_server ≡ open_server
unfolding on_lib_connection_callback on_connect find insert_new put remove
open_server_run = refl

named_server_run : add_session 2 7 1 open_server ≡ named_server
unfolding add_session find insert_new update
named_server_run = refl

-- The login of a user who is in on connection 5 shuts that connection, and is not taken.
second_login :
    add_session 3 7 1 (on_lib_connection_callback true 6 named_server)
    ≡ record (on_lib_connection_callback true 6 named_server) { shut = 5 ∷ [] }
unfolding add_session on_lib_connection_callback on_connect find insert_new put remove update
    dis_connect
second_login = refl

named_server-Reached : Reached named_server
unfolding find
named_server-Reached = subst Reached named_server_run (
    later open_server _
      (subst Reached open_server_run
        (later new_tcp_server _ at_start (connects 5 refl (omega arith))))
      (adds_session 2 7 1))

send_msg_to_user-owner_example :
    (((find 7 named_server.m_session_map ≡ none)
        × (send_msg_to_user 7 (frame 1 hello) named_server ≡ named_server))
      ⊎ ((conn : Conn) × (us : UserSession) × (find conn named_server.contexts ≡ some us)
          × (us.m_user_id ≡ 7)
          × (find us.m_socket_key named_server.m_connection_map ≡ some conn)
          × ((send_msg_to_user 7 (frame 1 hello) named_server).sent
              ≡ named_server.sent ++ ((conn, wire_bytes (frame 1 hello)) ∷ []))))
    ⊎ NamedTwice named_server named_server-Reached
send_msg_to_user-owner_example =
    send_msg_to_user-owner named_server 7 (frame 1 hello) named_server-Reached

add_session-ghost_example :
    let t = on_dis_connect 5 (add_session 2 8 1 (add_session 2 7 1 open_server)) in
    (find 2 t.m_connection_map ≡ none)
    × (find 7 t.m_session_map ≡ some 5)
    × (add_session 9 7 1 t ≡ t)
unfolding find
add_session-ghost_example =
    add_session-ghost open_server 2 7 8 1 1 5 fresh_session refl refl refl refl refl (omega arith) 9
      1

abbrev online_client : TcpClient
online_client = record (new_tcp_client 8000 1) { connection = true }

send_messages-arrive_example :
    ((send_messages byte_list [] (frame 1 hello ∷ []) online_client).1.sent
      ≡ [] ++ (concat (take 5 (frame 1 hello) ∷ drop 5 (frame 1 hello) ∷ []) ∷ []))
    × ((left : Bytes) × (arrive byte_list 5
            (take 5 (frame 1 hello) ∷ drop 5 (frame 1 hello) ∷ [])
            []
            open_server
          ≡ some (left, queued 5 (frame 1 hello ∷ []) open_server))
        × (left ≡ []))
unfolding le
send_messages-arrive_example =
    send_messages-arrive byte_list byte_list-IsLawful [] [] (frame 1 hello ∷ []) online_client 5
      (take 5 (frame 1 hello) ∷ drop 5 (frame 1 hello) ∷ []) open_server
      (frame-IsWire 1 hello (omega arith), tt) refl refl refl refl
