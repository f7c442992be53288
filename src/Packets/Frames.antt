-- ===== src/Packets/Frames.antt =====
-- commonsrc/include/function_for_muduo.h and the loops that read messages off a connection,
-- `TcpServer::onMessage` of commonsrc/src/tcp_server.cpp and `TcpClient::onMessage` of
-- commonsrc/src/tcp_client.cpp. The buffer is muduo's, a parameter.
use qclib.Base.{
  ℕ, zero, suc, ◌≤◌, ◌≡◌, Bool, true, false, List, [], ◌∷◌, ◌++◌, Option, none, some, leb, ltb,
  if◌then◌else◌, length, take, drop, ◌>>=◌,
}
use qclib.Packets.{Bytes, Message, get_le, write, packet_size, to_size_t, new_message, m_data_len}

-- muduo::net::Buffer, as far as the code calls it.
pub record Buffer : Type 1 where
  pub State : Type 0
  pub readable_bytes : State → ℕ
  -- The readable bytes, from the one that `peek` points at.
  pub peek : State → Bytes
  pub append : State → Bytes → State
  pub retrieve : State → ℕ → State

-- What muduo documents: `append` adds at the end, `retrieve` takes readable bytes off the front.
pub record IsLawful (S : Buffer) : Type 0 where
  pub readable-peek : (b : S.State) → S.readable_bytes b ≡ length (S.peek b)
  pub peek-append : (b : S.State) (bs : Bytes) → S.peek (S.append b bs) ≡ S.peek b ++ bs
  pub peek-retrieve :
      (b : S.State) (n : ℕ) → n ≤ S.readable_bytes b → S.peek (S.retrieve b n) ≡ drop n (S.peek b)

-- The bytes of the block of a message that go over the wire.
abbrev pub wire_bytes : Message → Bytes
wire_bytes msg = take (to_size_t (packet_size 32 (m_data_len msg))) msg

module _ (S : Buffer) where
  -- What `msg2Buffer` appends is read from the block of the message.
  unfoldable pub msg2_buffer : Message → S.State → S.State
  msg2_buffer msg buf = S.append buf (wire_bytes msg)

  unfoldable pub enouth_data : S.State → Bool
  enouth_data buf =
      let bufsize = S.readable_bytes buf in
      let datasize = get_le 4 (S.peek buf) in
      if ltb 4 bufsize then leb (to_size_t (packet_size 32 datasize)) bufsize else false

  unfoldable pub new_msg_form_buffer : S.State → Option (Message × S.State)
  new_msg_form_buffer buf =
      let datasize = get_le 4 (S.peek buf) in
      let packetsize = to_size_t (packet_size 32 datasize) in
      write 0 (take packetsize (S.peek buf)) (new_message datasize) >>= λ (ptmp : Message).
      some (ptmp, S.retrieve buf packetsize)

  abbrev pub Received : Type 0
  Received = List Message × S.State

  abbrev pub received : Message → Received → Option Received
  received msg (msgs, buf) = some (msg ∷ msgs, buf)

  -- The loop of `TcpClient::onMessage`; `none` when the fuel runs out.
  unfoldable pub client_on_message : ℕ → S.State → Option Received
  client_on_message zero buf = none
  client_on_message (suc fuel) buf = elim (enouth_data buf) [
    | true ↦ new_msg_form_buffer buf >>= λ (p : Message × S.State).
        client_on_message fuel p.1 >>= received p.0
    | false ↦ some ([], buf)
  ]

  -- The body of `TcpServer::onMessage`, a `do` loop.
  unfoldable pub server_do_loop : ℕ → S.State → Option Received
  server_do_loop zero buf = none
  server_do_loop (suc fuel) buf = new_msg_form_buffer buf >>= λ (p : Message × S.State).
      elim (enouth_data p.1) [
        | true ↦ server_do_loop fuel p.1 >>= received p.0
        | false ↦ some (p.0 ∷ [], p.1)
      ]

  unfoldable pub server_on_message : ℕ → S.State → Option Received
  server_on_message fuel buf = if enouth_data buf then server_do_loop fuel buf else some ([], buf)

  -- What muduo does with the bytes that arrive on a connection: each chunk is appended, and the
  -- callback runs. The fuel is one round for each byte, and one.
  unfoldable pub feed : List Bytes → S.State → Option Received
  feed [] buf = some ([], buf)
  feed (chunk ∷ chunks) buf =
      let filled = S.append buf chunk in
      server_on_message (suc (S.readable_bytes filled)) filled >>= λ (now : Received).
      feed chunks now.1 >>= λ (later : Received). some (now.0 ++ later.0, later.1)
