-- ===== src/Gate.antt =====
-- projects/gate_svr/gate_manager.cpp and gate_manager.h: the gate between clients and game servers.
-- The generated messages and MD5 are parameters. A handler answers `none` where an access leaves its
-- block.
use qclib.Base.{
  ℕ, leb, zero, suc, ◌+◌, ◌-◌, ◌*◌, ◌/◌, ◌%◌, Bool, true, false, List, [], ◌∷◌, ◌++◌, ◌&&◌, Option,
  none, some, ◌==◌, ltb, if◌then◌else◌, ◌>>=◌, take, drop, length,
}
use qclib.Base.Int.{ℤ, pos, negsuc}
use qclib.Table.{Table, find, insert_new, remove, update}
use qclib.Packets.{
  Bytes, Message, MsgInServer, m_data, m_data_len, m_whole_cmd, msg_in_server_at, msginserver_size,
  set_message, set_server_message, set_other_svr_msg, le, transit_ack,
}
use qclib.Tcp.{
  Conn, UserSession, MsgFromClient, TcpEvent, TcpEventType, TcpServer, tcp_event_connected,
  tcp_event_disconnected, tcp_event_error, tcp_event_first_read, add_session, send_msg,
  send_msg_to_user,
}
pub mod Relay
mod Tests

abbrev pub pre_login_cmd : ℕ
pre_login_cmd = 0x0101

abbrev pub pre_login_ack : ℕ
pre_login_ack = 0x0201

abbrev pub heart_cmd : ℕ
heart_cmd = 0xfeff

abbrev pub userlogin_cmd : ℕ
userlogin_cmd = 0xff01

abbrev pub svrlogin_cmd : ℕ
svrlogin_cmd = 0x010a

abbrev pub svrlogin_ack : ℕ
svrlogin_ack = 0x020a

-- The fields of the generated `ReqLogin` and `ReqLoginServer` that the gate reads.
pub record ReqLogin : Type 0 where
  pub serverid : ℕ
  pub userid : ℕ
  pub checkkey : Bytes
  pub account : Bytes
  pub time : ℤ

pub record ReqLoginServer : Type 0 where
  pub serverid : ℕ
  pub checkcode : ℕ
  pub servertype : ℕ

-- The generated code and MD5.
pub record Codec : Type 0 where
  pub parse_login : Bytes → ReqLogin
  pub parse_login_server : Bytes → ReqLoginServer
  pub failed_login : Bytes
  pub ack_login_server : ReqLoginServer → Bytes
  pub md5 : Bytes → Bytes

-- The buffers are those of the thread for clients (`thr_szMsgCapacity`, `thr_szSvrMsgCapacity`) and of
-- the thread for servers.
pub record Gate : Type 0 where
  pub m_tcp_client_listener : TcpServer
  pub m_tcp_server_listener : TcpServer
  pub m_server_id_list : Table ℕ
  pub client_msg_buffer : Bytes
  pub client_svr_buffer : Bytes
  pub server_msg_buffer : Bytes
  pub server_svr_buffer : Bytes

-- `%d` of an `int32_t`, which has ten digits at most.
unfoldable pub digits : ℕ → ℕ → Bytes
digits zero n = []
digits (suc fuel) n =
    let front = digits fuel (n / 10) in
    if ltb n 10 then (48 + n) ∷ [] else front ++ ((48 + n % 10) ∷ [])

abbrev pub decimal : ℤ → Bytes
decimal (pos n) = digits 10 n
decimal (negsuc n) = 45 ∷ digits 10 (suc n)

abbrev pub same_bytes : Bytes → Bytes → Bool
same_bytes [] [] = true
same_bytes [] (y ∷ ys) = false
same_bytes (x ∷ xs) [] = false
same_bytes (x ∷ xs) (y ∷ ys) = (x == y) && same_bytes xs ys

-- The account, "7cool" and the time.
abbrev pub temp_check_key : ReqLogin → Bytes
temp_check_key login = login.account ++ ((55 ∷ 99 ∷ 111 ∷ 111 ∷ 108 ∷ []) ++ decimal login.time)

-- The bytes of a message's data, by its own length field.
abbrev pub body_of : Message → Bytes
body_of msg = take (m_data_len msg) (m_data msg)

-- The client's message in one between servers.
abbrev pub inner_of : Message → Message
inner_of msg = drop msginserver_size (m_data msg)

-- `SendMsgToServer`.
unfoldable pub send_msg_to_server : ℕ → Message → Gate → Gate
send_msg_to_server svrid msg g = elim (find svrid g.m_server_id_list) [
  | none ↦ g
  | some socket_key ↦ record g {
    m_tcp_server_listener = send_msg socket_key msg g.m_tcp_server_listener;
  }
]

-- `SetServerMessage` on the thread for clients, and the message sent to a server.
abbrev pub forward : UserSession → ℕ → Bytes → ℕ → Gate → Option Gate
forward session svrid content len g =
    let svrheader : MsgInServer = record {
      m_user_only_id = session.m_user_id;
      m_server_id = session.m_session_server_id;
    } in
    set_server_message g.client_svr_buffer svrheader content len >>= λ (msg : Message).
    some (send_msg_to_server svrid msg (record g { client_svr_buffer = msg }))

-- After `AddSession` the session is read again through the pointer.
abbrev pub forward_login : Conn → ℕ → Message → Gate → Option Gate
forward_login conn server_id msg g = elim (find conn g.m_tcp_client_listener.contexts) [
  | none ↦ none
  | some session ↦ forward session server_id msg (m_data_len msg) g
]

-- TRANSIT_ACK: the message inside goes to the user that its header names. A message too short for the ids
-- is read behind its block: `none`.
unfoldable pub transit_back : Message → Gate → Option Gate
transit_back msg g =
    let hdr = msg_in_server_at (take msginserver_size (m_data msg)) in
    if leb msginserver_size (length (m_data msg))
    then some (record g {
      m_tcp_client_listener =
          send_msg_to_user hdr.m_user_only_id (inner_of msg) g.m_tcp_client_listener;
    })
    else none

module _ (lib : Codec) where
  -- The login: the session is added and the message forwarded, or it is sent back. What is built for
  -- a failed login stays in the thread's buffer.
  unfoldable pub pre_login : Conn → UserSession → Message → Gate → Option Gate
  pre_login conn session msg g =
      let login = lib.parse_login (body_of msg) in
      if same_bytes login.checkkey (lib.md5 (temp_check_key login))
      then forward_login conn login.serverid msg (record g {
        m_tcp_client_listener =
            add_session session.m_socket_key login.userid login.serverid g.m_tcp_client_listener;
      })
      else (set_message g.client_msg_buffer pre_login_ack lib.failed_login (length lib.failed_login)
          >>= λ (built : Message). some (record g {
            client_msg_buffer = built;
            m_tcp_client_listener = send_msg session.m_socket_key msg g.m_tcp_client_listener;
          }))

  -- One turn of the loop of `OnGateClientMessage`, for a session that is there.
  unfoldable pub client_message : Conn → UserSession → Message → Gate → Option Gate
  client_message conn session msg g =
      let cmd = m_whole_cmd msg in
      if cmd == pre_login_cmd
      then pre_login conn session msg g
      else (if cmd == heart_cmd
          then some (record g {
            m_tcp_client_listener = send_msg session.m_socket_key msg g.m_tcp_client_listener;
          })
          else forward session session.m_session_server_id msg (m_data_len msg) g)

  unfoldable pub on_gate_client_message : List MsgFromClient → Gate → Option Gate
  on_gate_client_message [] g = some g
  on_gate_client_message (m ∷ ms) g =
      elim (find m.m_user_session g.m_tcp_client_listener.contexts) [
        | none ↦ on_gate_client_message ms g
        | some session ↦
            client_message m.m_user_session session m.m_message g >>= on_gate_client_message ms
      ]

  -- The first message of a server, which is answered unless the id is taken.
  unfoldable pub server_login : Conn → UserSession → Message → Gate → Option Gate
  server_login conn session msg g =
      let addlogic = lib.parse_login_server (body_of (inner_of msg)) in
      let svrid = addlogic.serverid in
      let ack = lib.ack_login_server addlogic in
      let header : MsgInServer = record { m_user_only_id = 0; m_server_id = 1 } in
      elim (find svrid g.m_server_id_list) [
        | some taken ↦ some g
        | none ↦
            set_message g.server_msg_buffer svrlogin_ack ack (length ack)
            >>= λ (inner_msg : Message).
                set_other_svr_msg g.server_svr_buffer svrlogin_ack header inner_msg
                  (m_data_len inner_msg)
                >>= λ (answer : Message).
                    let listener = send_msg session.m_socket_key answer g.m_tcp_server_listener in
                    some (record g {
                      m_server_id_list = insert_new svrid session.m_socket_key g.m_server_id_list;
                      server_msg_buffer = inner_msg;
                      server_svr_buffer = answer;
                      m_tcp_server_listener = record listener {
                        contexts =
                            update conn
                              (λ (us : UserSession). record us { m_session_server_id = svrid })
                              listener.contexts;
                      };
                    })
      ]

  -- One turn of the loop of `OnGateServerMessage`.
  unfoldable pub server_message : Conn → Option UserSession → Message → Gate → Option Gate
  server_message conn session msg g =
      let cmd = m_whole_cmd msg in
      if cmd == svrlogin_cmd
      then elim session [ none ↦ some g | some us ↦ server_login conn us msg g ]
      else (if cmd == heart_cmd
          then elim session [
            | none ↦ some g
            | some us ↦ some (record g {
              m_tcp_server_listener = send_msg us.m_socket_key msg g.m_tcp_server_listener;
            })
          ]
          else (if cmd == transit_ack then transit_back msg g else some g))

  unfoldable pub on_gate_server_message : List MsgFromClient → Gate → Option Gate
  on_gate_server_message [] g = some g
  on_gate_server_message (m ∷ ms) g =
      server_message m.m_user_session (find m.m_user_session g.m_tcp_server_listener.contexts)
        m.m_message g
      >>= on_gate_server_message ms

-- The `Message` that is made on the stack for a lost client: ten bytes, of which `SetServerMessage`
-- reads sixteen; `stack` is what lies behind it.
abbrev pub offline_message : Bytes → Bytes
offline_message stack = le 4 0 ++ (le 4 0 ++ (le 2 userlogin_cmd ++ stack))

unfoldable pub client_event : Bytes → TcpEvent → Gate → Option Gate
client_event stack evt g = elim evt.m_event_id [
  | tcp_event_disconnected ↦
      let session : UserSession = record {
        m_socket_key = evt.m_socket_key;
        m_user_id = evt.m_user_id;
        m_session_server_id = evt.m_server_id;
      } in
      forward session evt.m_server_id (offline_message stack) 0 g
  | _ ↦ some g
]

unfoldable pub on_gate_client_event : Bytes → List TcpEvent → Gate → Option Gate
on_gate_client_event stack [] g = some g
on_gate_client_event stack (evt ∷ evts) g =
    client_event stack evt g >>= on_gate_client_event stack evts

unfoldable pub server_event : TcpEvent → Gate → Gate
server_event evt g = elim evt.m_event_id [
  | tcp_event_disconnected ↦ record g {
    m_server_id_list = remove evt.m_server_id g.m_server_id_list;
  }
  | _ ↦ g
]

unfoldable pub on_gate_server_event : List TcpEvent → Gate → Gate
on_gate_server_event [] g = g
on_gate_server_event (evt ∷ evts) g = on_gate_server_event evts (server_event evt g)
