-- ===== src/Tcp.antt =====
-- commonsrc/src/tcp_server.cpp and commonsrc/include/tcp_server.h: connections and sessions of the
-- server. A connection of muduo is a number, and its context, which holds the session, stands in
-- `contexts`; a `UserSession*` points into the context of a connection, so it is that number. What is
-- sent to muduo is a list.
use qclib.Base.{
  ℕ, suc, ◌+◌, ◌%◌, ◌^◌, Bool, true, false, List, [], ◌∷◌, ◌++◌, map, Option, none, some, ◌==◌,
  if◌then◌else◌, ◌>>=◌,
}
use qclib.Table.{Table, find, insert_new, remove, update, put}
use qclib.Packets.{Bytes, Message}
use qclib.Packets.Frames.{Buffer, Received, wire_bytes, server_on_message}
pub mod Links
pub mod Ghost
pub mod Client
pub mod Tests

abbrev pub Conn : Type 0
Conn = ℕ

pub record UserSession : Type 0 where
  pub m_socket_key : ℕ
  pub m_user_id : ℕ
  pub m_session_server_id : ℕ

pub record MsgFromClient : Type 0 where
  pub m_user_session : Conn
  pub m_message : Message

pub data TcpEventType : Type 0 where
  tcp_event_connected : TcpEventType
  tcp_event_disconnected : TcpEventType
  tcp_event_error : TcpEventType
  tcp_event_first_read : TcpEventType

pub record TcpEvent : Type 0 where
  pub m_socket_key : ℕ
  pub m_event_id : TcpEventType
  pub m_error_code : ℕ
  pub m_user_id : ℕ
  pub m_server_id : ℕ

pub record TcpServer : Type 0 where
  pub m_socket_key_index : ℕ
  pub m_msg_list : List MsgFromClient
  pub m_event_list : List TcpEvent
  pub m_connection_map : Table Conn
  pub m_session_map : Table Conn
  pub contexts : Table UserSession
  pub sent : List (Conn × Bytes)
  pub shut : List Conn

-- The constructor of `TcpServer`.
abbrev pub new_tcp_server : TcpServer
new_tcp_server = record {
  m_socket_key_index = 1;
  m_msg_list = [];
  m_event_list = [];
  m_connection_map = [];
  m_session_map = [];
  contexts = [];
  sent = [];
  shut = [];
}

-- `conn->send` of the bytes of one message, where a map has the connection.
abbrev pub send_to : Option Conn → Message → TcpServer → TcpServer
send_to none msg s = s
send_to (some conn) msg s = record s { sent = s.sent ++ ((conn, wire_bytes msg) ∷ []) }

unfoldable pub send_msg : ℕ → Message → TcpServer → TcpServer
send_msg socket_key msg s = send_to (find socket_key s.m_connection_map) msg s

unfoldable pub send_msg_to_user : ℕ → Message → TcpServer → TcpServer
send_msg_to_user user_id msg s = send_to (find user_id s.m_session_map) msg s

-- `ReceiveMsg` and `GetEvents`: the caller's list is replaced by what is waiting.
unfoldable pub receive_msg : TcpServer → List MsgFromClient × TcpServer
receive_msg s = (s.m_msg_list, record s { m_msg_list = [] })

unfoldable pub get_events : TcpServer → List TcpEvent × TcpServer
get_events s = (s.m_event_list, record s { m_event_list = [] })

abbrev pub shutdown_of : Option Conn → TcpServer → TcpServer
shutdown_of none s = s
shutdown_of (some conn) s = record s { shut = s.shut ++ (conn ∷ []) }

unfoldable pub dis_connect : ℕ → TcpServer → TcpServer
dis_connect socket_key s = shutdown_of (find socket_key s.m_connection_map) s

unfoldable pub dis_connect_user : ℕ → TcpServer → TcpServer
dis_connect_user user_id s = shutdown_of (find user_id s.m_session_map) s

-- `setEvent`.
abbrev pub set_event : ℕ → ℕ → ℕ → TcpEventType → ℕ → TcpServer → TcpServer
set_event socket_key user_id server_id event_type error_code s =
    let event : TcpEvent = record {
      m_socket_key = socket_key;
      m_event_id = event_type;
      m_error_code = error_code;
      m_user_id = user_id;
      m_server_id = server_id;
    } in
    record s { m_event_list = s.m_event_list ++ (event ∷ []) }

-- `onConnect`; the key is an `int64_t`.
unfoldable pub on_connect : Conn → TcpServer → TcpServer
on_connect conn s =
    let key = (s.m_socket_key_index + 1) % 2 ^ 64 in
    let session : UserSession = record {
      m_socket_key = key;
      m_user_id = 0;
      m_session_server_id = 0;
    } in
    set_event key 0 0 tcp_event_connected 0 (record s {
      m_socket_key_index = key;
      m_connection_map = insert_new key conn s.m_connection_map;
      contexts = put conn session s.contexts;
    })

abbrev pub drop_session : Option UserSession → TcpServer → TcpServer
drop_session none s = s
drop_session (some session) s =
    set_event session.m_socket_key session.m_user_id session.m_session_server_id
      tcp_event_disconnected 0
      (record s {
        m_connection_map = remove session.m_socket_key s.m_connection_map;
        m_session_map = remove session.m_user_id s.m_session_map;
      })

unfoldable pub on_dis_connect : Conn → TcpServer → TcpServer
on_dis_connect conn s = drop_session (find conn s.contexts) s

-- `AddSession` where the user has no session, on the connection that the key stands for.
abbrev pub add_new_session : Option Conn → ℕ → ℕ → TcpServer → TcpServer
add_new_session none user_id svrid s = s
add_new_session (some conn) user_id svrid s = record s {
  contexts =
      update conn
        (λ (session : UserSession). record session {
          m_user_id = user_id;
          m_session_server_id = svrid;
        })
        s.contexts;
  m_session_map = insert_new user_id conn s.m_session_map;
}

-- `AddSession` where the user has one: its old connection is shut, unless it is the same.
abbrev pub old_session : ℕ → Option UserSession → TcpServer → TcpServer
old_session socket_key none s = s
old_session socket_key (some session) s =
    if socket_key == session.m_socket_key then s else dis_connect session.m_socket_key s

unfoldable pub add_session : ℕ → ℕ → ℕ → TcpServer → TcpServer
add_session socket_key user_id svrid s = elim (find user_id s.m_session_map) [
  | none ↦ add_new_session (find socket_key s.m_connection_map) user_id svrid s
  | some conn ↦ old_session socket_key (find conn s.contexts) s
]

-- `onMessage`: the messages in the buffer are queued with the session of the connection.
unfoldable pub on_message :
    (S : Buffer) → ℕ → Conn → S.State → TcpServer → Option (S.State × TcpServer)
on_message S fuel conn buf s = server_on_message S fuel buf >>= λ (r : Received S). some (
  r.1,
  record s {
    m_msg_list =
        s.m_msg_list ++ map (λ (m : Message). record { m_user_session = conn; m_message = m }) r.0;
  },
)

-- `onLibConnectionCallback`.
unfoldable pub on_lib_connection_callback : Bool → Conn → TcpServer → TcpServer
on_lib_connection_callback connected conn s =
    if connected then on_connect conn s else on_dis_connect conn s
