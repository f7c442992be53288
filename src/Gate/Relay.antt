-- ===== src/Gate/Relay.antt =====
-- projects/gate_svr/gate_manager.cpp: a client's message on its way to a server, and a server's message
-- on its way to a client.
use qclib.Base.{
  leb, true, ℕ, ◌+◌, ◌^◌, ◌≤◌, ◌<◌, ◌≡◌, ◌≢◌, refl, sym, ap, ◌∙◌, arith, false, List, [], ◌∷◌, ◌++◌,
  Option, some, ◌==◌, length, take, replicate, length-append, Option-cases, inl, inr,
}
use qclib.Table.{find}
use qclib.Packets.{
  Bytes, Message, MsgInServer, max_buff_size, m_data_len, m_whole_cmd, m_data, msg_in_server_bytes,
  transit_cmd, transit_ack, set_server_message,
}
use qclib.Packets.Memory.{take-append_at, drop-append_at}
use qclib.Packets.Built.{padding, frame, length-frame}
use qclib.Packets.Nested.{
  block_size, behind, set_other_svr_msg-frame, m_data-packet, m_whole_cmd-packet,
  msg_in_server_at-bytes, length-msg_in_server_bytes,
}
use qclib.Packets.Sent.{wire_bytes-frame, m_data_len-frame, set_server_message-other}
use qclib.Packets.Frames.{wire_bytes}
use qclib.Tcp.{Conn, UserSession, TcpServer, send_msg, send_msg_to_user}
use qclib.Gate.{
  Codec, Gate, client_message, server_message, on_gate_client_message, on_gate_server_message,
  send_msg_to_server, transit_back, pre_login_cmd, heart_cmd,
}
use mathlib.Core.List.{append_assoc, append-nil}

-- What the two listeners have sent.
abbrev pub to_clients : Gate → List (Conn × Bytes)
to_clients g = g.m_tcp_client_listener.sent

abbrev pub to_servers : Gate → List (Conn × Bytes)
to_servers g = g.m_tcp_server_listener.sent

abbrev pub header_of : UserSession → MsgInServer
header_of us = record { m_user_only_id = us.m_user_id; m_server_id = us.m_session_server_id }

-- A whole client's message is read in full by `SetServerMessage`.
set_server_message-whole :
    (buffer body : Bytes) (h : MsgInServer) (cmd : ℕ)
    → length buffer ≡ max_buff_size
    → block_size (length body) + 12 ≤ 65518
    → set_server_message buffer h (frame cmd body) (length body)
      ≡ some (
          frame transit_cmd (msg_in_server_bytes h ++ frame cmd body)
          ++ behind (length body) buffer)
set_server_message-whole buffer body h cmd hb fits =
    let size = length-frame cmd body in
    let all : take (block_size (length body)) (frame cmd body) ≡ frame cmd body =
      ap (take (block_size (length body))) (sym (append-nil (frame cmd body)))
      ∙ take-append_at (block_size (length body)) (frame cmd body) [] (sym size) in
    (set_server_message-other buffer (frame cmd body) h (length body) (omega arith)).0
    ∙ set_other_svr_msg-frame buffer (frame cmd body) h (length body) transit_cmd hb
        (omega (arith, size)) fits
    ∙ rw all refl

send_msg_to_server-sent :
    (g : Gate) (svrid key : ℕ) (conn : Conn) (msg : Message)
    → find svrid g.m_server_id_list ≡ some key
    → find key g.m_tcp_server_listener.m_connection_map ≡ some conn
    → (send_msg_to_server svrid msg g).m_tcp_server_listener.sent
      ≡ g.m_tcp_server_listener.sent ++ ((conn, wire_bytes msg) ∷ [])
unfolding send_msg_to_server send_msg
send_msg_to_server-sent g svrid key conn msg known there =
    rw (send_msg_to_server, known, there) refl

send_msg_to_server-clients :
    (g : Gate) (svrid : ℕ) (msg : Message)
    → (send_msg_to_server svrid msg g).m_tcp_client_listener ≡ g.m_tcp_client_listener
unfolding send_msg_to_server
send_msg_to_server-clients g svrid msg = elim (Option-cases (find svrid g.m_server_id_list)) [
  | inl e ↦ rw (send_msg_to_server, e) refl
  | inr (key, e) ↦ rw (send_msg_to_server, e) refl
]

-- A message of a client that the gate does not answer itself.
client_message-forward :
    (lib : Codec) (g : Gate) (conn server_conn : Conn) (us : UserSession) (key cmd : ℕ)
    (body : Bytes)
    → length g.client_svr_buffer ≡ max_buff_size
    → block_size (length body) + 12 ≤ 65518
    → cmd < 2 ^ 16
    → cmd ≢ pre_login_cmd
    → cmd ≢ heart_cmd
    → find us.m_session_server_id g.m_server_id_list ≡ some key
    → find key g.m_tcp_server_listener.m_connection_map ≡ some server_conn
    → (after : Gate) × (client_message lib conn us (frame cmd body) g ≡ some after)
      × (to_servers after
          ≡ to_servers g
            ++ ((
              server_conn,
              frame transit_cmd (msg_in_server_bytes (header_of us) ++ frame cmd body),
            )
                ∷ []))
      × (after.m_tcp_client_listener ≡ g.m_tcp_client_listener)
unfolding client_message
client_message-forward lib g conn server_conn us key cmd body hb fits hc no_login no_heart known
      there =
    let h = header_of us in
    let whole = set_server_message-whole g.client_svr_buffer body h cmd hb fits in
    let inner = msg_in_server_bytes h ++ frame cmd body in
    let built = frame transit_cmd inner ++ behind (length body) g.client_svr_buffer in
    let named : m_whole_cmd (frame cmd body) ≡ cmd =
      m_whole_cmd-packet cmd body (replicate (padding (length body)) 0) hc in
    let len : m_data_len (frame cmd body) ≡ length body =
      ap m_data_len (sym (append-nil (frame cmd body)))
      ∙ m_data_len-frame cmd body [] (omega arith) in
    let not_login : cmd == pre_login_cmd ≡ false = ground (arith, no_login) in
    let not_heart : cmd == heart_cmd ≡ false = ground (arith, no_heart) in
    let after =
      send_msg_to_server us.m_session_server_id built (record g { client_svr_buffer = built }) in
    (
      after,
      rw (named, not_login, not_heart, len, whole) refl,
      send_msg_to_server-sent (record g { client_svr_buffer = built }) us.m_session_server_id key
            server_conn built known there
          ∙ rw
              (wire_bytes-frame transit_cmd inner (behind (length body) g.client_svr_buffer) (
                omega (
                  arith,
                  length-append (msg_in_server_bytes h) (frame cmd body),
                  length-msg_in_server_bytes h,
                  length-frame cmd body,
                )))
              refl,
      send_msg_to_server-clients (record g { client_svr_buffer = built }) us.m_session_server_id
          built,
    )

-- A server's message for a user.
transit_back-sent :
    (g : Gate) (h : MsgInServer) (cmd : ℕ) (body : Bytes) (conn : Conn)
    → h.m_user_only_id < 2 ^ 64
    → h.m_server_id < 2 ^ 32
    → length body + 17 < 2 ^ 31
    → find h.m_user_only_id g.m_tcp_client_listener.m_session_map ≡ some conn
    → (back : Gate) × (transit_back (frame transit_ack (msg_in_server_bytes h ++ frame cmd body)) g
        ≡ some back)
      × (to_clients back ≡ to_clients g ++ ((conn, frame cmd body) ∷ []))
unfolding transit_back send_msg_to_user
transit_back-sent g h cmd body conn hu hs hb there =
    let header = msg_in_server_bytes h in
    let inner = frame cmd body in
    let pad = replicate (padding (length (header ++ inner))) 0 in
    let place : 12 ≡ length header = sym (length-msg_in_server_bytes h) in
    let parts : m_data (frame transit_ack (header ++ inner)) ≡ header ++ (inner ++ pad) =
      m_data-packet transit_ack (header ++ inner) pad ∙ append_assoc header inner pad in
    let whole : leb 12 (length (header ++ (inner ++ pad))) ≡ true =
      ground (arith, length-append header (inner ++ pad), length-msg_in_server_bytes h) in
    (
      record g {
        m_tcp_client_listener =
            send_msg_to_user h.m_user_only_id (inner ++ pad) g.m_tcp_client_listener;
      },
      rw
          (
            parts,
            take-append_at 12 header (inner ++ pad) place,
            drop-append_at 12 header (inner ++ pad) place,
            msg_in_server_at-bytes h hu hs,
            whole,
          )
          refl,
      rw (there, wire_bytes-frame cmd body pad hb) refl,
    )

server_message-back :
    (lib : Codec) (g : Gate) (conn : Conn) (o : Option UserSession) (body : Bytes)
    → server_message lib conn o (frame transit_ack body) g ≡ transit_back (frame transit_ack body) g
unfolding server_message
server_message-back lib g conn o body =
    rw (m_whole_cmd-packet transit_ack body (replicate (padding (length body)) 0) (omega arith))
      refl

-- A whole message of a client with a session, other than a login and a heartbeat and short enough for
-- the thread's buffer, goes to the connection of the session's server, inside a message whose header
-- has the ids of the session, and to no client. A message that a server then sends under TRANSIT_ACK
-- to the session's user goes, taken out of its wrapping, to the client's connection and to no other.
pub relay :
    (lib : Codec) (g : Gate) (conn server_conn : Conn) (us : UserSession) (key cmd answer_cmd : ℕ)
    (body answer : Bytes) (h : MsgInServer)
    → length g.client_svr_buffer ≡ max_buff_size
    → block_size (length body) + 12 ≤ 65518
    → cmd < 2 ^ 16
    → cmd ≢ pre_login_cmd
    → cmd ≢ heart_cmd
    → find conn g.m_tcp_client_listener.contexts ≡ some us
    → find us.m_session_server_id g.m_server_id_list ≡ some key
    → find key g.m_tcp_server_listener.m_connection_map ≡ some server_conn
    → find us.m_user_id g.m_tcp_client_listener.m_session_map ≡ some conn
    → h.m_user_only_id ≡ us.m_user_id
    → h.m_user_only_id < 2 ^ 64
    → h.m_server_id < 2 ^ 32
    → length answer + 17 < 2 ^ 31
    → (after back : Gate) × (on_gate_client_message lib
          (record { m_user_session = conn; m_message = frame cmd body } ∷ [])
          g
        ≡ some after)
      × (to_servers after
          ≡ to_servers g
            ++ ((
              server_conn,
              frame transit_cmd (msg_in_server_bytes (header_of us) ++ frame cmd body),
            )
                ∷ []))
      × (to_clients after ≡ to_clients g)
      × (on_gate_server_message lib
            (record {
              m_user_session = server_conn;
              m_message = frame transit_ack (msg_in_server_bytes h ++ frame answer_cmd answer);
            }
              ∷ [])
            after
          ≡ some back)
      × (to_clients back ≡ to_clients g ++ ((conn, frame answer_cmd answer) ∷ []))
unfolding on_gate_client_message on_gate_server_message
relay lib g conn server_conn us key cmd answer_cmd body answer h hb fits hc no_login no_heart
      context known there session user hu hs long =
    let (after, ran, sent, same) =
      client_message-forward lib g conn server_conn us key cmd body hb fits hc no_login no_heart
        known there in
    let reply : Bytes = frame transit_ack (msg_in_server_bytes h ++ frame answer_cmd answer) in
    let found : find h.m_user_only_id after.m_tcp_client_listener.m_session_map ≡ some conn =
      ap (λ (u : ℕ). find u after.m_tcp_client_listener.m_session_map) user
      ∙ ap (λ (t : TcpServer). find us.m_user_id t.m_session_map) same
      ∙ session in
    let (back, answered, got) = transit_back-sent after h answer_cmd answer conn hu hs long found in
    (
      after,
      back,
      rw (on_gate_client_message, context, ran) refl,
      sent,
      ap (λ (t : TcpServer). t.sent) same,
      rw
          (server_message-back lib after server_conn
            (find server_conn after.m_tcp_server_listener.contexts)
            (msg_in_server_bytes h ++ frame answer_cmd answer))
          (rw answered refl),
      got ∙ ap (λ (t : TcpServer). t.sent ++ ((conn, frame answer_cmd answer) ∷ [])) same,
    )
