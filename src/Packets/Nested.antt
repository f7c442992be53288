-- ===== src/Packets/Nested.antt =====
-- commonsrc/include/base_define.h: a client's message inside one between servers, `SetServerMessage`,
-- `SetServerMessageAck`, `SetOtherSvrMsg` and `AnalyzeSvrMsg`.
use qclib.Base.{
  ℕ, ◌+◌, ◌-◌, ◌%◌, ◌^◌, ◌≤◌, ◌<◌, ◌≡◌, refl, sym, ap, ◌∙◌, arith, [], ◌++◌, some, length, take,
  drop, replicate, ◌>>=◌, length-append, length-replicate, length-take,
}
use qclib.Packets.{
  Bytes, Message, max_buff_size, get_le, le, push_back, packet_size, m_cmd_type, m_whole_cmd,
  m_data, MsgInServer, msg_in_server_bytes, msg_in_server_at, svrbase_cmd, set_other_svr_msg,
  analyze_svr_msg,
}
use qclib.Packets.Memory.{length-le, get_le-le_append, get_le-le, take-append_at, drop-append_at}
use qclib.Packets.Built.{
  length-frame, cleared-packet, set_whole_cmd-packet, packet, padding, frame, packet_size-rounds,
  replicate-append, packet-frame, push_back-packet,
}
use mathlib.Core.List.{append_assoc, append-nil}

pub length-msg_in_server_bytes : (h : MsgInServer) → length (msg_in_server_bytes h) ≡ 12
unfolding msg_in_server_bytes
length-msg_in_server_bytes h = omega (
  arith,
  length-append (le 8 h.m_user_only_id) (le 4 h.m_server_id),
  length-le 8 h.m_user_only_id,
  length-le 4 h.m_server_id,
)

take_all : (xs : Bytes) (n : ℕ) → n ≡ length xs → take n xs ≡ xs
take_all xs n h = ap (take n) (sym (append-nil xs)) ∙ take-append_at n xs [] h

-- The two copies into a titled block with room for both.
fill-packet :
    (cmd p : ℕ) (h : MsgInServer) (rest content : Bytes)
    → p ≤ length content
    → 12 + p < 2 ^ 32
    → (push_back (packet cmd [] (replicate (12 + p) 0 ++ rest)) (msg_in_server_bytes h) 12
        >>= λ (headed : Message). push_back headed content p)
      ≡ some (packet cmd (msg_in_server_bytes h ++ take p content) rest)
fill-packet cmd p h rest content hc fits =
    let split : replicate (12 + p) 0 ++ rest ≡ replicate 12 0 ++ (replicate p 0 ++ rest) =
      ap (λ (xs : Bytes). xs ++ rest) (replicate-append 12 p (12 + p) 0 refl)
      ∙ append_assoc (replicate 12 0) (replicate p 0) rest in
    let first =
      push_back-packet cmd [] (replicate 12 0) (replicate p 0 ++ rest) (msg_in_server_bytes h) 12
        (omega arith) (length-replicate {A = ℕ} 12 0)
        (omega (arith, length-msg_in_server_bytes h)) in
    let whole = take_all (msg_in_server_bytes h) 12 (sym (length-msg_in_server_bytes h)) in
    rw (split, first, whole)
      (push_back-packet cmd (msg_in_server_bytes h) (replicate p 0) rest content p
        (omega (arith, length-msg_in_server_bytes h)) (length-replicate {A = ℕ} p 0) hc)

-- The size of the block of a client's message with a body of `len` bytes.
abbrev pub block_size : ℕ → ℕ
block_size len = len + 10 + padding len

-- What lies in the thread's buffer behind a message between servers.
abbrev pub behind : ℕ → Bytes → Bytes
behind len buffer = drop (block_size (block_size len + 12)) buffer

pub set_other_svr_msg-frame :
    (buffer content : Bytes) (h : MsgInServer) (len cmd : ℕ)
    → length buffer ≡ max_buff_size
    → block_size len ≤ length content
    → block_size len + 12 ≤ 65518
    → set_other_svr_msg buffer cmd h content len
      ≡ some
          (frame cmd (msg_in_server_bytes h ++ take (block_size len) content) ++ behind len buffer)
unfolding set_other_svr_msg
set_other_svr_msg-frame buffer content h len cmd hb hc fits =
    let inner : packet_size 64 len ≡ p = packet_size-rounds 64 len (omega arith) in
    let outer : packet_size 64 (p + 12) ≡ size = packet_size-rounds 64 (p + 12) (omega arith) in
    let clear = cleared-packet (12 + p) size buffer (omega arith) (omega arith) in
    let titled = set_whole_cmd-packet cmd (replicate (12 + p) 0 ++ rest) in
    let body = msg_in_server_bytes h ++ take p content in
    rw (inner, outer, clear, titled, fill-packet cmd p h rest content hc (omega arith))
      (ap some (
        packet-frame cmd room body (behind len buffer) (
          omega (
            arith,
            length-append (msg_in_server_bytes h) (take p content),
            length-take p content,
            length-msg_in_server_bytes h,
          ))))
  where
    p : ℕ
    p = block_size len

    size : ℕ
    size = block_size (p + 12)

    room : ℕ
    room = size - (10 + (12 + p))

    rest : Bytes
    rest = replicate room 0 ++ behind len buffer

pub msg_in_server_at-bytes :
    (h : MsgInServer)
    → h.m_user_only_id < 2 ^ 64
    → h.m_server_id < 2 ^ 32
    → msg_in_server_at (msg_in_server_bytes h) ≡ h
unfolding msg_in_server_at msg_in_server_bytes
msg_in_server_at-bytes h hu hs =
    rw
      (
        get_le-le_append 8 h.m_user_only_id (le 4 h.m_server_id) hu,
        drop-append_at 8 (le 8 h.m_user_only_id) (le 4 h.m_server_id)
            (sym (length-le 8 h.m_user_only_id)),
        get_le-le 4 h.m_server_id hs,
      )
      refl

-- Reading the parts of a block.
module _ (cmd : ℕ) (body rest : Bytes) where
  pub m_data-packet : m_data (packet cmd body rest) ≡ body ++ rest
  unfolding le
  m_data-packet = refl

  pub m_cmd_type-packet : m_cmd_type (packet cmd body rest) ≡ cmd % 256
  unfolding le get_le
  m_cmd_type-packet = omega arith

  pub m_whole_cmd-packet : cmd < 2 ^ 16 → m_whole_cmd (packet cmd body rest) ≡ cmd
  unfolding le get_le
  m_whole_cmd-packet h = omega arith

analyze-packet :
    (cmd : ℕ) (h h0 : MsgInServer) (inner rest : Bytes)
    → cmd < 2 ^ 16
    → cmd % 256 ≡ svrbase_cmd
    → h.m_user_only_id < 2 ^ 64
    → h.m_server_id < 2 ^ 32
    → analyze_svr_msg (some (packet cmd (msg_in_server_bytes h ++ inner) rest)) h0
      ≡ (some (inner ++ rest), cmd, h)
unfolding analyze_svr_msg
analyze-packet cmd h h0 inner rest hc hb hu hs =
    let body = msg_in_server_bytes h ++ inner in
    let header = msg_in_server_bytes h in
    let place : 12 ≡ length header = sym (length-msg_in_server_bytes h) in
    let whole : body ++ rest ≡ header ++ (inner ++ rest) = append_assoc header inner rest in
    rw
      (
        m_cmd_type-packet cmd body rest,
        m_whole_cmd-packet cmd body rest hc,
        m_data-packet cmd body rest,
        whole,
        hb,
        take-append_at 12 header (inner ++ rest) place,
        drop-append_at 12 header (inner ++ rest) place,
        msg_in_server_at-bytes h hu hs,
      )
      refl

-- A client's message that is put into one between servers is there again when that one is taken
-- apart, at the front of what `AnalyzeSvrMsg` answers, with the command and both ids; the servers'
-- command has the low byte SVRBASE_CMD, the ids fit their types and the whole fits the thread's
-- buffer.
pub analyze-set_other_svr_msg :
    (buffer body rest : Bytes) (h h0 : MsgInServer) (client_cmd cmd : ℕ)
    → length buffer ≡ max_buff_size
    → block_size (length body) + 12 ≤ 65518
    → cmd < 2 ^ 16
    → cmd % 256 ≡ svrbase_cmd
    → h.m_user_only_id < 2 ^ 64
    → h.m_server_id < 2 ^ 32
    → (left : Bytes) × ((set_other_svr_msg buffer cmd h
            (frame client_cmd body ++ rest)
            (length body)
          >>= λ (msg : Message). some (analyze_svr_msg (some msg) h0))
        ≡ some (some (frame client_cmd body ++ left), cmd, h))
analyze-set_other_svr_msg buffer body rest h h0 client_cmd cmd hb fits hc hl hu hs =
    let content = frame client_cmd body ++ rest in
    let header = msg_in_server_bytes h in
    let size = length-frame client_cmd body in
    let room : block_size (length body) ≤ length content =
      omega (arith, length-append (frame client_cmd body) rest, size) in
    let built = set_other_svr_msg-frame buffer content h (length body) cmd hb room fits in
    let inner : take (block_size (length body)) content ≡ frame client_cmd body =
      take-append_at (block_size (length body)) (frame client_cmd body) rest (sym size) in
    let fill = replicate (padding (length (header ++ frame client_cmd body))) 0 in
    let outer =
      packet-frame cmd (padding (length (header ++ frame client_cmd body)))
        (header ++ frame client_cmd body) (behind (length body) buffer) refl in
    (
      fill ++ behind (length body) buffer,
      rw (built, inner, sym outer)
          (ap some (
            analyze-packet cmd h h0 (frame client_cmd body) (fill ++ behind (length body) buffer) hc
              hl hu hs)),
    )
