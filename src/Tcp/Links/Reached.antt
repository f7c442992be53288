-- ===== src/Tcp/Links/Reached.antt =====
-- The calls of a `TcpServer`, by muduo and by its owner, in any order.
use qclib.Base.{
  ℕ, ◌+◌, ◌<◌, ◌^◌, ◌≡◌, ◌⊎◌, refl, sym, ap, ◌∙◌, true, false, List, [], ◌∷◌, ◌++◌, Option, none,
  some, Option-cases, inl, inr,
}
use qclib.Table.{find}
use qclib.Packets.{Message}
use qclib.Packets.Frames.{wire_bytes}
use qclib.Tcp.{
  Conn, UserSession, MsgFromClient, TcpServer, new_tcp_server, on_lib_connection_callback,
  add_session, dis_connect, dis_connect_user, send_to, send_msg, send_msg_to_user, receive_msg,
  get_events,
}
use mathlib.Core.Option.{some-injective, none-ne-some}
use qclib.Tcp.Links.{IsLinked, new_tcp_server-IsLinked, on_connect-IsLinked, relink}
use qclib.Tcp.Links.Closed.{shutdown_of-IsLinked, on_dis_connect-IsLinked}
use qclib.Tcp.Links.Opened.{HasNoUser, add_session-IsLinked}

-- One call. muduo reports a new connection object as connected, and one that is in the table as
-- disconnected; the owner names users on connections as it likes.
pub data Step (s : TcpServer) : TcpServer → Type 0 where
  connects :
      (conn : Conn)
      → find conn s.contexts ≡ none
      → s.m_socket_key_index + 1 < 2 ^ 64
      → Step s (on_lib_connection_callback true conn s)
  disconnects :
      (conn : Conn) (us : UserSession)
      → find conn s.contexts ≡ some us
      → find us.m_socket_key s.m_connection_map ≡ some conn
      → Step s (on_lib_connection_callback false conn s)
  adds_session : (socket_key user_id svrid : ℕ) → Step s (add_session socket_key user_id svrid s)
  shuts : (socket_key : ℕ) → Step s (dis_connect socket_key s)
  shuts_user : (user_id : ℕ) → Step s (dis_connect_user user_id s)
  sends : (socket_key : ℕ) (msg : Message) → Step s (send_msg socket_key msg s)
  sends_to_user : (user_id : ℕ) (msg : Message) → Step s (send_msg_to_user user_id msg s)
  queues : (more : List MsgFromClient) → Step s (record s { m_msg_list = s.m_msg_list ++ more })
  takes_messages : Step s (receive_msg s).1
  takes_events : Step s (get_events s).1

pub data Reached : TcpServer → Type 0 where
  at_start : Reached new_tcp_server
  later : (s t : TcpServer) → Reached s → Step s t → Reached t

-- A user is named on a connection whose user has a session.
abbrev pub HasUser : ℕ → TcpServer → Type 0
HasUser socket_key s =
    (conn : Conn) × (us : UserSession) × (other : Conn) × (find socket_key s.m_connection_map
      ≡ some conn)
    × (find conn s.contexts ≡ some us)
    × (find us.m_user_id s.m_session_map ≡ some other)

-- Some call so far did.
pub data NamedTwice : (s : TcpServer) → Reached s → Type 0 where
  by_this :
      (s : TcpServer) (r : Reached s) (socket_key user_id svrid : ℕ)
      → HasUser socket_key s
      → NamedTwice _ (later s _ r (adds_session socket_key user_id svrid))
  before_this :
      (s t : TcpServer) (r : Reached s) (step : Step s t)
      → NamedTwice s r
      → NamedTwice t (later s t r step)

HasUser-cases : (k : ℕ) (s : TcpServer) → HasNoUser k s ⊎ HasUser k s
HasUser-cases k s = elim (Option-cases (find k s.m_connection_map)) [
  | inl e ↦ inl (λ conn us h i. absurd (none-ne-some _ (sym e ∙ h)))
  | inr (conn, e) ↦ elim (Option-cases (find conn s.contexts)) [
    | inl no_context ↦ inl (λ conn' us h i.
        let same : conn ≡ conn' = some-injective _ _ (sym e ∙ h) in
        absurd (none-ne-some _ (sym no_context ∙ ap (λ (c : Conn). find c s.contexts) same ∙ i)))
    | inr (us, there) ↦ elim (Option-cases (find us.m_user_id s.m_session_map)) [
      | inr (other, session) ↦ inr (conn, us, other, e, there, session)
      | inl no_session ↦ inl (λ conn' us' h i.
          let same : conn ≡ conn' = some-injective _ _ (sym e ∙ h) in
          let same_us : us ≡ us' =
            some-injective _ _ (sym there ∙ ap (λ (c : Conn). find c s.contexts) same ∙ i) in
          ap (λ (u : UserSession). find u.m_user_id s.m_session_map) (sym same_us) ∙ no_session)
    ]
  ]
]

send_to-IsLinked :
    (o : Option Conn) (msg : Message) (s : TcpServer) → IsLinked s → IsLinked (send_to o msg s)
send_to-IsLinked none msg s linked = linked
send_to-IsLinked (some conn) msg s linked = relink s _ refl refl refl refl linked

Step-IsLinked :
    (s t : TcpServer) (r : Reached s) (step : Step s t)
    → IsLinked s
    → IsLinked t ⊎ NamedTwice t (later s t r step)
unfolding on_lib_connection_callback dis_connect dis_connect_user send_msg send_msg_to_user
    receive_msg get_events
Step-IsLinked s _ r (connects conn fresh room) linked =
    inl (on_connect-IsLinked s conn linked fresh room)
Step-IsLinked s _ r (disconnects conn us context there) linked =
    inl (on_dis_connect-IsLinked s conn us linked context there)
Step-IsLinked s _ r (adds_session socket_key user_id svrid) linked =
    elim (HasUser-cases socket_key s) [
      | inl no_user ↦ inl (add_session-IsLinked s socket_key user_id svrid linked no_user)
      | inr user ↦ inr (by_this s r socket_key user_id svrid user)
    ]
Step-IsLinked s _ r (shuts k) linked =
    inl (shutdown_of-IsLinked (find k s.m_connection_map) s linked)
Step-IsLinked s _ r (shuts_user u) linked =
    inl (shutdown_of-IsLinked (find u s.m_session_map) s linked)
Step-IsLinked s _ r (sends k msg) linked =
    inl (send_to-IsLinked (find k s.m_connection_map) msg s linked)
Step-IsLinked s _ r (sends_to_user u msg) linked =
    inl (send_to-IsLinked (find u s.m_session_map) msg s linked)
Step-IsLinked s _ r (queues more) linked = inl (relink s _ refl refl refl refl linked)
Step-IsLinked s _ r takes_messages linked = inl (relink s _ refl refl refl refl linked)
Step-IsLinked s _ r takes_events linked = inl (relink s _ refl refl refl refl linked)

pub Reached-IsLinked : (s : TcpServer) (r : Reached s) → IsLinked s ⊎ NamedTwice s r
Reached-IsLinked _ at_start = inl new_tcp_server-IsLinked
Reached-IsLinked _ (later s t r step) = elim (Reached-IsLinked s r) [
  | inl linked ↦ Step-IsLinked s t r step linked
  | inr twice ↦ inr (before_this s t r step twice)
]

-- After any calls, as long as a connection is new when it connects and in the table when it ends, and the
-- counter of the keys has room: a message for a user goes to no connection, and then the user has no
-- session, or it goes to one connection that is still in the table of connections and whose context
-- carries this user; or else one of the calls so far named a user on a connection whose user had a
-- session.
pub send_msg_to_user-owner :
    (s : TcpServer) (user_id : ℕ) (msg : Message) (reached : Reached s)
    → (((find user_id s.m_session_map ≡ none) × (send_msg_to_user user_id msg s ≡ s))
        ⊎ ((conn : Conn) × (us : UserSession) × (find conn s.contexts ≡ some us)
            × (us.m_user_id ≡ user_id)
            × (find us.m_socket_key s.m_connection_map ≡ some conn)
            × ((send_msg_to_user user_id msg s).sent ≡ s.sent ++ ((conn, wire_bytes msg) ∷ []))))
      ⊎ NamedTwice s reached
unfolding send_msg_to_user
send_msg_to_user-owner s user_id msg reached = elim (Reached-IsLinked s reached) [
  | inr twice ↦ inr twice
  | inl linked ↦ inl (elim (Option-cases (find user_id s.m_session_map)) [
    | inl e ↦ inl (e, rw e refl)
    | inr (conn, e) ↦
        let own = linked.owned user_id conn e in
        inr (conn, own.session, own.context, own.user_of, own.connected, rw e refl)
  ])
]
