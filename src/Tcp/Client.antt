-- ===== src/Tcp/Client.antt =====
-- commonsrc/src/tcp_client.cpp and commonsrc/include/tcp_client.h: a client of the server. Whether
-- muduo has a connection is a field, and what is handed to muduo stands in lists.
use qclib.Base.{
  ℕ, zero, suc, ◌+◌, ◌%◌, ◌^◌, Bool, true, false, not, ◌&&◌, List, [], ◌∷◌, ◌++◌, Option, none,
  some, if◌then◌else◌, ◌>>=◌,
}
use qclib.Packets.{Bytes, Message}
use qclib.Packets.Frames.{Buffer, Received, wire_bytes, msg2_buffer, client_on_message}
use qclib.Tcp.{TcpEvent, TcpEventType, tcp_event_connected, tcp_event_disconnected, tcp_event_error}
pub mod Delivered

pub data Status : Type 0 where
  disconnected : Status
  connectting : Status
  connected : Status
  disconnecting : Status

pub record TcpClient : Type 0 where
  pub m_port : ℕ
  pub m_server_id : ℕ
  pub m_valid : Bool
  pub m_status : Status
  pub m_in_msg_list : List Message
  pub m_out_msg_list : List Message
  pub m_event_list : List TcpEvent
  -- `m_client.connection()` is there.
  pub connection : Bool
  -- The bytes of each `send`, and what was put into the output buffer by hand.
  pub sent : List Bytes
  pub connects : ℕ
  pub stops : ℕ

-- The constructor.
abbrev pub new_tcp_client : ℕ → ℕ → TcpClient
new_tcp_client port srvid = record {
  m_port = port;
  m_server_id = srvid;
  m_valid = false;
  m_status = disconnected;
  m_in_msg_list = [];
  m_out_msg_list = [];
  m_event_list = [];
  connection = false;
  sent = [];
  connects = 0;
  stops = 0;
}

-- `Start`: a second call does nothing.
unfoldable pub start : TcpClient → TcpClient
start c =
    if c.m_valid
    then c
    else record c { m_valid = true; connects = c.connects + 1; m_status = connectting }

unfoldable pub terminate : TcpClient → TcpClient
terminate c = record c { m_status = disconnecting; stops = c.stops + 1; m_valid = false }

-- `SendMessage` of one message.
unfoldable pub send_message : Message → TcpClient → TcpClient
send_message msg c = if c.connection then record c { sent = c.sent ++ (wire_bytes msg ∷ []) } else c

module _ (S : Buffer) where
  abbrev pub fill : List Message → S.State → S.State
  fill [] buf = buf
  fill (msg ∷ msgs) buf = fill msgs (msg2_buffer S msg buf)

  -- `SendMessage` of a list, which it empties whether or not there is a connection; `empty` is a
  -- buffer as its constructor leaves it.
  unfoldable pub send_messages : S.State → List Message → TcpClient → List Message × TcpClient
  send_messages empty msgs c =
      let buf = fill msgs empty in
      ([], if c.connection then record c { sent = c.sent ++ (S.peek buf ∷ []) } else c)

  -- `onMessage`; `none` when the fuel runs out.
  unfoldable pub on_message : ℕ → S.State → TcpClient → Option (S.State × TcpClient)
  on_message fuel buf c = client_on_message S fuel buf >>= λ (r : Received S).
      some (r.1, record c { m_in_msg_list = c.m_in_msg_list ++ r.0 })

-- The loop of `SendData`; `none` where it takes the front of an empty list.
abbrev pub send_all : List Message → List Bytes → Option (List Bytes)
send_all [] sent = none
send_all (msg ∷ []) sent = some (sent ++ (wire_bytes msg ∷ []))
send_all (msg ∷ more ∷ msgs) sent = send_all (more ∷ msgs) (sent ++ (wire_bytes msg ∷ []))

-- `SendData`: what waits is dropped when there is no connection.
unfoldable pub send_data : TcpClient → Option TcpClient
send_data c =
    if c.connection
    then (send_all c.m_out_msg_list c.sent >>= λ (out : List Bytes).
        some (record c { m_out_msg_list = []; sent = out }))
    else some (record c { m_out_msg_list = [] })

-- `ReceiveMessage` and `ReceiveEvent` add what waits to the caller's list.
unfoldable pub receive_message : List Message → TcpClient → List Message × TcpClient
receive_message msgs c = (msgs ++ c.m_in_msg_list, record c { m_in_msg_list = [] })

unfoldable pub receive_event : List TcpEvent → TcpClient → List TcpEvent × TcpClient
receive_event events c = (events ++ c.m_event_list, record c { m_event_list = [] })

-- `SendEvent`; `count` is the `static` that all clients share, before the call. The user's id is
-- not set: it is `unset`.
unfoldable pub send_event : ℕ → ℕ → TcpEventType → TcpClient → ℕ × TcpClient
send_event unset count id c =
    let next = (count + 1) % 2 ^ 32 in
    let event : TcpEvent = record {
      m_socket_key = c.m_port;
      m_event_id = id;
      m_error_code = next;
      m_user_id = unset;
      m_server_id = c.m_server_id;
    } in
    (next, record c { m_event_list = c.m_event_list ++ (event ∷ []) })

abbrev pub with_status : Status → ℕ × TcpClient → ℕ × TcpClient
with_status status (count, c) = (count, record c { m_status = status })

unfoldable pub on_disconnect : ℕ → ℕ → TcpClient → ℕ × TcpClient
on_disconnect unset count c =
    with_status disconnected (send_event unset count tcp_event_disconnected c)

unfoldable pub on_connect : Bool → ℕ → ℕ → TcpClient → ℕ × TcpClient
on_connect is_connected unset count c =
    if is_connected
    then with_status connected (send_event unset count tcp_event_connected c)
    else on_disconnect unset count c

unfoldable pub on_error : ℕ → ℕ → TcpClient → ℕ × TcpClient
on_error unset count c = send_event unset count tcp_event_error c

-- `IsStoped`.
abbrev pub is_stoped : TcpClient → Bool
is_stoped c = not c.m_valid && is_disconnected c.m_status
  where
    is_disconnected : Status → Bool
    is_disconnected disconnected = true
    is_disconnected _ = false
