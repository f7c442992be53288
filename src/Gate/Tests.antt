-- ===== src/Gate/Tests.antt =====
-- Runs of the gate, and the theorems at concrete inputs.
use qclib.Base.{ℕ, ◌≡◌, refl, arith, [], ◌∷◌, ◌++◌, some, replicate, length-replicate}
use qclib.Base.Int.{pos, negsuc}
use qclib.Table.{find}
use qclib.Packets.{msg_in_server_bytes, transit_cmd, transit_ack}
use qclib.Packets.Built.{frame}
use qclib.Packets.Tests.{hello, user_7}
use qclib.Tcp.{UserSession}
use qclib.Tcp.Tests.{open_server, named_server}
use qclib.Gate.{Codec, Gate, digits, decimal, on_gate_client_message, on_gate_server_message}
use qclib.Gate.Relay.{to_clients, to_servers, header_of, relay}

abbrev codec : Codec
codec = record {
  parse_login =
      λ bs. record { serverid = 1; userid = 7; checkkey = []; account = bs; time = pos 0 };
  parse_login_server = λ bs. record { serverid = 1; checkcode = 0; servertype = 1 };
  failed_login = 8 ∷ 1 ∷ [];
  ack_login_server = λ r. 8 ∷ 1 ∷ [];
  md5 = λ bs. bs;
}

-- User 7 on connection 5 of the listener for clients, server 1 on connection 5 of the other one.
abbrev gate : Gate
gate = record {
  m_tcp_client_listener = named_server;
  m_tcp_server_listener = open_server;
  m_server_id_list = (1, 2) ∷ [];
  client_msg_buffer = replicate 65535 0;
  client_svr_buffer = replicate 65535 0;
  server_msg_buffer = replicate 65535 0;
  server_svr_buffer = replicate 65535 0;
}

abbrev session_7 : UserSession
session_7 = record { m_socket_key = 2; m_user_id = 7; m_session_server_id = 1 }

decimal_times : (decimal (negsuc 11) ≡ 45 ∷ 49 ∷ 50 ∷ []) × (decimal (pos 0) ≡ 48 ∷ [])
unfolding digits
decimal_times = (refl, refl)

relay_example :
    (after back : Gate) × (on_gate_client_message codec
        (record { m_user_session = 5; m_message = frame 0x0402 hello } ∷ [])
        gate
      ≡ some after)
    × (to_servers after
        ≡ []
          ++ ((
            5,
            frame transit_cmd (msg_in_server_bytes (header_of session_7) ++ frame 0x0402 hello),
          )
              ∷ []))
    × (to_clients after ≡ [])
    × (on_gate_server_message codec
          (record {
            m_user_session = 5;
            m_message = frame transit_ack (msg_in_server_bytes user_7 ++ frame 0x0502 hello);
          }
            ∷ [])
          after
        ≡ some back)
    × (to_clients back ≡ [] ++ ((5, frame 0x0502 hello) ∷ []))
unfolding find
relay_example =
    relay codec gate 5 5 session_7 2 0x0402 0x0502 hello hello user_7
      (length-replicate {A = ℕ} 65535 0) (omega arith) (omega arith) (omega arith) (omega arith)
      refl refl refl refl refl (omega arith) (omega arith) (omega arith)
