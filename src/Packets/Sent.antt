-- ===== src/Packets/Sent.antt =====
-- commonsrc/include/base_define.h and function_for_muduo.h: what `SetMessage` and `msg2Buffer` put on
-- the wire, and `SetServerMessage` beside `SetOtherSvrMsg`.
use qclib.Base.{
  ℕ, zero, suc, ◌+◌, ◌^◌, ◌≤◌, ◌<◌, ◌≡◌, refl, ap, ◌∙◌, fun_ext, arith, true, ◌++◌, Option, some,
  leb, length, take, drop, ◌>>=◌, length-take,
}
use qclib.Packets.{
  Bytes, Message, max_buff_size, get_le, le, m_data_len, packet_size, to_size_t, set_message,
  MsgInServer, set_server_message, set_server_message_ack, set_other_svr_msg, transit_cmd,
  transit_ack, push_package, push_back, set_whole_cmd, zeroed, msg_in_server_bytes,
  msginserver_size,
}
use qclib.Packets.Memory.{take-append_at}
use qclib.Packets.Built.{padding, frame, packet_size-rounds, length-frame, set_message-frame}
use qclib.Packets.Stream.{IsWire}
use qclib.Packets.Frames.{Buffer, IsLawful, msg2_buffer, wire_bytes}

pub m_data_len-frame :
    (cmd : ℕ) (body rest : Bytes)
    → length body < 2 ^ 32
    → m_data_len (frame cmd body ++ rest) ≡ length body
unfolding le get_le
m_data_len-frame cmd body rest h = omega arith

-- What is built is a whole message.
pub frame-IsWire : (cmd : ℕ) (body : Bytes) → length body + 17 < 2 ^ 31 → IsWire (frame cmd body)
unfolding le get_le
frame-IsWire cmd body h =
    let len : m_data_len (frame cmd body) ≡ length body = omega arith in
    rw len (h, length-frame cmd body)

pub wire_bytes-frame :
    (cmd : ℕ) (body rest : Bytes)
    → length body + 17 < 2 ^ 31
    → wire_bytes (frame cmd body ++ rest) ≡ frame cmd body
wire_bytes-frame cmd body rest h =
    let len = m_data_len-frame cmd body rest (omega arith) in
    let size : to_size_t (packet_size 32 (length body)) ≡ length (frame cmd body) =
      ground (arith, packet_size-rounds 32 (length body) (omega arith), length-frame cmd body) in
    let front : take (length (frame cmd body)) (frame cmd body ++ rest) ≡ frame cmd body =
      take-append_at (length (frame cmd body)) (frame cmd body) rest refl in
    rw (len, size, front) refl

module _ (S : Buffer) (lawful : IsLawful S) where
  msg2_buffer-frame :
      (cmd : ℕ) (body rest : Bytes) (b : S.State)
      → length body + 17 < 2 ^ 31
      → S.peek (msg2_buffer S (frame cmd body ++ rest) b) ≡ S.peek b ++ frame cmd body
  unfolding msg2_buffer
  msg2_buffer-frame cmd body rest b h =
      lawful.peek-append b (wire_bytes (frame cmd body ++ rest))
      ∙ ap (λ (bs : Bytes). S.peek b ++ bs) (wire_bytes-frame cmd body rest h)

  -- A message that `SetMessage` builds from `len` bytes, 65518 at most, goes to a buffer by
  -- `msg2Buffer` as one frame, behind what is there.
  pub msg2_buffer-set_message :
      (buffer content : Bytes) (cmd len : ℕ) (b : S.State)
      → length buffer ≡ max_buff_size
      → len ≤ length content
      → len ≤ 65518
      → (set_message buffer cmd content len >>= λ (msg : Message).
          some (S.peek (msg2_buffer S msg b)))
        ≡ some (S.peek b ++ frame cmd (take len content))
  msg2_buffer-set_message buffer content cmd len b hb hc fits =
      let short : leb len 65518 ≡ true = ground arith in
      let built = set_message-frame buffer content cmd len hb hc (omega arith) in
      let body : length (take len content) + 17 < 2 ^ 31 = omega (arith, length-take len content) in
      rw (built, short)
        (ap some
          (msg2_buffer-frame cmd (take len content) (drop (len + 10 + padding len) buffer) b body))

push_package-push_back :
    (content : Bytes) (n : ℕ) (msg : Message)
    → 0 < n
    → push_package content n msg ≡ push_back msg content n
push_package-push_back content zero msg h = absurd (omega arith)
push_package-push_back content (suc n) msg h = refl

-- The three ways to wrap a message for another server differ in the command only: SetServerMessage
-- is SetOtherSvrMsg under TRANSIT_CMD and SetServerMessageAck is it under TRANSIT_ACK, for a length
-- whose packet size a size_t holds.
pub set_server_message-other :
    (buffer content : Bytes) (h : MsgInServer) (len : ℕ)
    → len + 17 < 2 ^ 64
    → (set_server_message buffer h content len ≡ set_other_svr_msg buffer transit_cmd h content len)
      × (set_server_message_ack buffer h content len
          ≡ set_other_svr_msg buffer transit_ack h content len)
unfolding set_server_message set_server_message_ack set_other_svr_msg
set_server_message-other buffer content h len fits =
    (ap wrapped (fun_ext (λ msg. push_package-push_back content package_len msg filled)), refl)
  where
    package_len : ℕ
    package_len = packet_size 64 len

    filled : 0 < package_len
    filled = omega (arith, packet_size-rounds 64 len fits)

    wrapped : (Message → Option Message) → Option Message
    wrapped last =
        zeroed (packet_size 64 (package_len + msginserver_size)) buffer >>= λ (msg : Message).
        set_whole_cmd transit_cmd msg >>= λ (titled : Message).
        push_back titled (msg_in_server_bytes h) msginserver_size >>= last
