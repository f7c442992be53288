-- ===== src/Packets.antt =====
-- commonsrc/include/base_define.h: the messages of the protocol. A `Message*` points at a block of
-- bytes, so that a `reinterpret_cast` changes nothing; a field is read at its place in the packed
-- struct, low byte first. An access beyond the end of the block answers `none`.
use qclib.Base.{
  ℕ, zero, suc, ◌+◌, ◌-◌, ◌*◌, ◌/◌, ◌%◌, ◌^◌, Bool, List, [], ◌∷◌, ◌++◌, Option, none, some, ◌==◌,
  leb, ltb, if◌then◌else◌, length, take, drop, replicate, ◌>>=◌,
}
pub mod Memory
pub mod Frames
pub mod Built
pub mod Nested
pub mod Stream
pub mod Loops
pub mod Chunks
pub mod Endless
pub mod Sent
pub mod Tests

abbrev pub Bytes : Type 0
Bytes = List ℕ

abbrev pub Message : Type 0
Message = Bytes

-- A number of `k` bytes at the front of a block, and such a number written.
unfoldable pub get_le : ℕ → Bytes → ℕ
get_le zero bs = 0
get_le (suc k) [] = 0
get_le (suc k) (b ∷ bs) = b + 256 * get_le k bs

unfoldable pub le : ℕ → ℕ → Bytes
le zero v = []
le (suc k) v = v % 256 ∷ le k (v / 256)

-- `memcpy` of all of `bs` to the place `at` of a block.
unfoldable pub write : ℕ → Bytes → Bytes → Option Bytes
write at bs block =
    if leb (at + length bs) (length block)
    then some (take at block ++ (bs ++ drop (at + length bs) block))
    else none

abbrev pub cmdheader_size : ℕ
cmdheader_size = 8

abbrev pub cmdtype_size : ℕ
cmdtype_size = 2

abbrev pub msginserver_size : ℕ
msginserver_size = 12

abbrev pub max_buff_size : ℕ
max_buff_size = 65535

abbrev pub svrbase_cmd : ℕ
svrbase_cmd = 0x0a

abbrev pub transit_cmd : ℕ
transit_cmd = 0x030a

abbrev pub transit_ack : ℕ
transit_ack = 0x040a

-- The fields of a `Message`.
abbrev pub m_data_len : Message → ℕ
m_data_len msg = get_le 4 msg

abbrev pub m_cmd_type : Message → ℕ
m_cmd_type msg = get_le 1 (drop 8 msg)

abbrev pub m_whole_cmd : Message → ℕ
m_whole_cmd msg = get_le 2 (drop 8 msg)

abbrev pub m_data : Message → Bytes
m_data msg = drop 10 msg

-- `x & ~7` on a pattern of `w` bits clears the three lowest of them.
unfoldable pub round_num : ℕ → ℕ → ℕ
round_num w value = (value + 7) % 2 ^ w / 8 * 8

-- PACKET_SIZE in an arithmetic of `w` bits: 64 where the length is a `size_t`, 32 where it is an
-- `int32_t` or `uint32_t`, whose sums have the same pattern.
unfoldable pub packet_size : ℕ → ℕ → ℕ
packet_size w data_size = round_num w (cmdheader_size + cmdtype_size + data_size)

-- An `int32_t` as a `size_t`, both by their patterns.
abbrev pub to_size_t : ℕ → ℕ
to_size_t n = if ltb n (2 ^ 31) then n else n + (2 ^ 64 - 2 ^ 32)

-- `Message::push_back`, from a block `data` of which `len` bytes are read.
unfoldable pub push_back : Message → Bytes → ℕ → Option Message
push_back msg content len =
    if leb len (length content)
    then (write (cmdheader_size + cmdtype_size + m_data_len msg) (take len content) msg
        >>= λ (grown : Message). write 0 (le 4 ((m_data_len msg + len) % 2 ^ 32)) grown)
    else none

-- `memset` of the start of a thread's buffer.
abbrev pub zeroed : ℕ → Bytes → Option Bytes
zeroed size buffer = write 0 (replicate size 0) buffer

abbrev pub set_whole_cmd : ℕ → Message → Option Message
set_whole_cmd cmd msg = write 8 (le 2 cmd) msg

unfoldable pub new_message : ℕ → Message
new_message datasize = replicate (packet_size 32 datasize) 0

-- `SetMessage`, on the thread's `thr_szMsgCapacity`.
unfoldable pub set_message : Bytes → ℕ → Bytes → ℕ → Option Message
set_message buffer whole_cmd content len =
    zeroed (packet_size 64 len) buffer >>= set_whole_cmd whole_cmd >>= λ (msg : Message).
    push_back msg content len

-- `MsgInServer`; the ids by their patterns of 64 and of 32 bits.
pub record MsgInServer : Type 0 where
  pub m_user_only_id : ℕ
  pub m_server_id : ℕ

unfoldable pub msg_in_server_bytes : MsgInServer → Bytes
msg_in_server_bytes h = le 8 h.m_user_only_id ++ le 4 h.m_server_id

unfoldable pub msg_in_server_at : Bytes → MsgInServer
msg_in_server_at bs = record { m_user_only_id = get_le 8 bs; m_server_id = get_le 4 (drop 8 bs) }

-- What follows the `memset` in `SetServerMessage`, `SetServerMessageAck` and `SetOtherSvrMsg`.
abbrev pub fill_server_message : ℕ → MsgInServer → Bytes → ℕ → Message → Option Message
fill_server_message whole_cmd svrheader content package_len msg =
    set_whole_cmd whole_cmd msg >>= λ (titled : Message).
    push_back titled (msg_in_server_bytes svrheader) msginserver_size >>= λ (headed : Message).
    push_back headed content package_len

unfoldable pub set_other_svr_msg : Bytes → ℕ → MsgInServer → Bytes → ℕ → Option Message
set_other_svr_msg buffer whole_cmd svrheader content len =
    let package_len = packet_size 64 len in
    zeroed (packet_size 64 (package_len + msginserver_size)) buffer
    >>= fill_server_message whole_cmd svrheader content package_len

unfoldable pub set_server_message_ack : Bytes → MsgInServer → Bytes → ℕ → Option Message
set_server_message_ack buffer svrheader content len =
    let package_len = packet_size 64 len in
    zeroed (packet_size 64 (package_len + msginserver_size)) buffer
    >>= fill_server_message transit_ack svrheader content package_len

-- `push_back` of a package that may be empty.
abbrev pub push_package : Bytes → ℕ → Message → Option Message
push_package content zero msg = some msg
push_package content (suc n) msg = push_back msg content (suc n)

abbrev pub fill_transit : MsgInServer → Bytes → ℕ → Message → Option Message
fill_transit svrheader content package_len msg =
    set_whole_cmd transit_cmd msg >>= λ (titled : Message).
    push_back titled (msg_in_server_bytes svrheader) msginserver_size
    >>= push_package content package_len

unfoldable pub set_server_message : Bytes → MsgInServer → Bytes → ℕ → Option Message
set_server_message buffer svrheader content len =
    let package_len = packet_size 64 len in
    zeroed (packet_size 64 (package_len + msginserver_size)) buffer
    >>= fill_transit svrheader content package_len

-- `SetServerNewMessage`: `fresh` is what `new` returns, of `packet_size` bytes, not cleared.
unfoldable pub set_server_new_message : Bytes → MsgInServer → Bytes → ℕ → Option Message
set_server_new_message fresh svrheader content len =
    fill_transit svrheader content (packet_size 64 len) fresh

-- `AnalyzeSvrMsg`: the message inside, the command, and the header of a message between servers
-- (`srv_hdr` stays as it was for any other). Of a message that is shorter than the ids, the code reads the
-- bytes behind the block; they count as zeros here.
unfoldable pub analyze_svr_msg : Option Message → MsgInServer → Option Message × ℕ × MsgInServer
analyze_svr_msg none srv_hdr = (none, 0, srv_hdr)
analyze_svr_msg (some msg) srv_hdr =
    if m_cmd_type msg == svrbase_cmd
    then (
      some (drop msginserver_size (m_data msg)),
      m_whole_cmd msg,
      msg_in_server_at (take msginserver_size (m_data msg)),
    )
    else (some msg, m_whole_cmd msg, srv_hdr)
