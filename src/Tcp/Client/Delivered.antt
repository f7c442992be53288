-- ===== src/Tcp/Client/Delivered.antt =====
-- What a client sends and the server queues.
use qclib.Base.{
  ℕ, suc, ◌≡◌, refl, sym, ap, ◌∙◌, true, List, [], ◌∷◌, ◌++◌, map, Option, none, some, Option-cases,
  inl, inr, ◌>>=◌, take, length, map-append, map-append,
}
use qclib.Packets.{Bytes, Message}
use qclib.Packets.Frames.{
  Buffer, IsLawful, Received, wire_bytes, msg2_buffer, server_on_message, feed,
}
use qclib.Packets.Stream.{IsWire, AllWire, concat, wire_size}
use qclib.Packets.Chunks.{feed-concat}
use qclib.Packets.Memory.{take-append_at}
use qclib.Tcp.{Conn, MsgFromClient, TcpServer}
use qclib.Tcp
use qclib.Tcp.Client.{TcpClient, fill, send_messages}
use mathlib.Core.List.{append_assoc, append-nil}

wire_bytes-wire : (m : Message) → IsWire m → wire_bytes m ≡ m
wire_bytes-wire m h =
    ap (λ (n : ℕ). take n m) (wire_size m h)
    ∙ ap (take (length m)) (sym (append-nil m))
    ∙ take-append_at (length m) m [] refl

-- A message in the queue of the server, with the session of its connection.
abbrev pub from_conn : Conn → Message → MsgFromClient
from_conn conn m = record { m_user_session = conn; m_message = m }

abbrev pub queued : Conn → List Message → TcpServer → TcpServer
queued conn ms s = record s { m_msg_list = s.m_msg_list ++ map (from_conn conn) ms }

module _ (S : Buffer) where
  -- The chunks that arrive on one connection, by `onMessage` with enough rounds.
  unfoldable pub arrive : Conn → List Bytes → S.State → TcpServer → Option (S.State × TcpServer)
  arrive conn [] buf s = some (buf, s)
  arrive conn (chunk ∷ chunks) buf s =
      let filled = S.append buf chunk in
      Tcp.on_message S (suc (S.readable_bytes filled)) conn filled s
      >>= λ (r : S.State × TcpServer). arrive conn chunks r.0 r.1

  queued-append :
      (conn : Conn) (ms ns : List Message) (s : TcpServer)
      → queued conn ns (queued conn ms s) ≡ queued conn (ms ++ ns) s
  queued-append conn ms ns s =
      ap (λ (q : List MsgFromClient). record s { m_msg_list = q })
        (append_assoc s.m_msg_list (map (from_conn conn) ms) (map (from_conn conn) ns)
          ∙ ap (λ (q : List MsgFromClient). s.m_msg_list ++ q)
              (sym (map-append (from_conn conn) ms ns)))

  abbrev with_server : Conn → TcpServer → Received S → Option (S.State × TcpServer)
  with_server conn s r = some (r.1, queued conn r.0 s)

  -- One more chunk in front of what is read later.
  after_chunk :
      (conn : Conn) (ms : List Message) (s : TcpServer) (o : Option (Received S))
      → (o >>= with_server conn (queued conn ms s))
        ≡ (o >>= (λ (later : Received S). some (ms ++ later.0, later.1)) >>= with_server conn s)
  after_chunk conn ms s none = refl
  after_chunk conn ms s (some (ns, left)) =
      ap (λ (t : TcpServer). some (left, t)) (queued-append conn ms ns s)

  arrive-feed :
      (conn : Conn) (chunks : List Bytes) (b : S.State) (s : TcpServer)
      → arrive conn chunks b s ≡ (feed S chunks b >>= with_server conn s)
  unfolding arrive feed Tcp.on_message
  arrive-feed conn [] b s =
      ap (λ (q : List MsgFromClient). some (b, record s { m_msg_list = q }))
        (sym (append-nil s.m_msg_list))
  arrive-feed conn (chunk ∷ chunks) b s =
      elim (Option-cases
        (server_on_message S (suc (S.readable_bytes (S.append b chunk))) (S.append b chunk))) [
          | inl e ↦ rw e refl
          | inr ((ms, left), e) ↦ rw e (
              arrive-feed conn chunks left (queued conn ms s)
              ∙ after_chunk conn ms s (feed S chunks left))
        ]

  fill-concat :
      (lawful : IsLawful S) (ms : List Message) (b : S.State)
      → AllWire ms
      → S.peek (fill S ms b) ≡ S.peek b ++ concat ms
  unfolding msg2_buffer
  fill-concat lawful [] b hs = sym (append-nil (S.peek b))
  fill-concat lawful (m ∷ ms) b (h, hs) =
      fill-concat lawful ms (msg2_buffer S m b) hs
      ∙ ap (λ (bs : Bytes). bs ++ concat ms)
          (lawful.peek-append b (wire_bytes m)
            ∙ ap (λ (bs : Bytes). S.peek b ++ bs) (wire_bytes-wire m h))
      ∙ append_assoc (S.peek b) m (concat ms)

  -- Whole messages that a connected client hands to `SendMessage` in a list go out in one `send`, and
  -- however its bytes are cut into chunks on the way, the server queues these messages, in their
  -- order and with the session of the connection, changes nothing else and leaves its buffer empty.
  pub send_messages-arrive :
      (lawful : IsLawful S) (empty buf : S.State) (ms : List Message) (c : TcpClient) (conn : Conn)
      (chunks : List Bytes) (s : TcpServer)
      → AllWire ms
      → S.peek empty ≡ []
      → S.peek buf ≡ []
      → c.connection ≡ true
      → concat chunks ≡ concat ms
      → ((send_messages S empty ms c).1.sent ≡ c.sent ++ (concat chunks ∷ []))
        × ((left : S.State) × (arrive conn chunks buf s ≡ some (left, queued conn ms s))
            × (S.peek left ≡ []))
  unfolding send_messages
  send_messages-arrive lawful empty buf ms c conn chunks s hs he hb hc cut =
      let bytes : S.peek (fill S ms empty) ≡ concat chunks =
        fill-concat lawful ms empty hs ∙ ap (λ (bs : Bytes). bs ++ concat ms) he ∙ sym cut in
      let (left, fed, done) = feed-concat S lawful chunks ms buf hs hb cut in
      (
        rw (hc, bytes) refl,
        (
          left,
          arrive-feed conn chunks buf s
              ∙ ap (λ (o : Option (Received S)). o >>= with_server conn s) fed,
          done,
        ),
      )
