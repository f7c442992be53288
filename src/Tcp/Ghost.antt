-- ===== src/Tcp/Ghost.antt =====
-- `TcpServer::AddSession` twice on one connection, under two users.
use qclib.Base.{
  ℕ, ◌≡◌, ◌≢◌, refl, sym, ap, ◌∙◌, arith, true, false, none, some, ◌==◌, Bool-cases, inl, inr,
}
use qclib.Table.{find, find-insert_new, find-remove, find-update, find-insert_new_self}
use qclib.Tcp.{
  Conn, UserSession, TcpServer, add_session, add_new_session, on_dis_connect, drop_session,
  dis_connect,
}

add_session-new :
    (s : TcpServer) (key user svr : ℕ) (conn : Conn)
    → find key s.m_connection_map ≡ some conn
    → find user s.m_session_map ≡ none
    → add_session key user svr s ≡ add_new_session (some conn) user svr s
unfolding add_session
add_session-new s key user svr conn there no_session = rw (add_session, no_session, there) refl

-- A session on a connection that is gone keeps its user from any other connection.
add_session-locked :
    (t : TcpServer) (key user svr : ℕ) (conn : Conn) (us : UserSession)
    → find user t.m_session_map ≡ some conn
    → find conn t.contexts ≡ some us
    → find us.m_socket_key t.m_connection_map ≡ none
    → add_session key user svr t ≡ t
unfolding add_session dis_connect
add_session-locked t key user svr conn us session context gone =
    rw (add_session, session, context)
      (elim (Bool-cases (key == us.m_socket_key)) [
        | inl e ↦ rw e refl
        | inr e ↦ rw (e, dis_connect, gone) refl
      ])

module _ (s : TcpServer) (key first second svr1 svr2 : ℕ) (conn : Conn) (us : UserSession)
    (connected : find key s.m_connection_map ≡ some conn) (context : find conn s.contexts ≡ some us)
    (key_of : us.m_socket_key ≡ key) (no_first : find first s.m_session_map ≡ none)
    (no_second : find second s.m_session_map ≡ none) (apart : first ≢ second) where
  abbrev named_once : TcpServer
  named_once = add_new_session (some conn) first svr1 s

  abbrev named_twice : TcpServer
  named_twice = add_new_session (some conn) second svr2 named_once

  abbrev last_session : UserSession
  last_session = record us { m_user_id = second; m_session_server_id = svr2 }

  abbrev closed : TcpServer
  closed = drop_session (some last_session) named_twice

  other : first == second ≡ false
  other = ground (arith, apart)

  other_back : second == first ≡ false
  other_back = ground (arith, apart)

  no_second_once : find second named_once.m_session_map ≡ none
  no_second_once =
      find-insert_new second first conn s.m_session_map no_first ∙ rw (other, no_second) refl

  twice : add_session key second svr2 (add_session key first svr1 s) ≡ named_twice
  twice =
      ap (add_session key second svr2) (add_session-new s key first svr1 conn connected no_first)
      ∙ add_session-new named_once key second svr2 conn connected no_second_once

  self : conn == conn ≡ true
  self = ground arith

  context_once :
      find conn named_once.contexts
      ≡ some (record us { m_user_id = first; m_session_server_id = svr1 })
  context_once = find-update conn conn _ s.contexts ∙ rw (self, context) refl

  context_twice : find conn named_twice.contexts ≡ some last_session
  context_twice = find-update conn conn _ named_once.contexts ∙ rw (self, context_once) refl

  closes : on_dis_connect conn named_twice ≡ closed
  unfolding on_dis_connect
  closes = rw (on_dis_connect, context_twice) refl

  first_left : find first closed.m_session_map ≡ some conn
  first_left =
      find-remove first second named_twice.m_session_map
      ∙ rw other_back (
          find-insert_new first second conn named_once.m_session_map no_second_once
          ∙ rw other_back (find-insert_new_self first conn s.m_session_map no_first))

  gone : find us.m_socket_key closed.m_connection_map ≡ none
  gone =
      let same : us.m_socket_key == us.m_socket_key ≡ true = ground arith in
      find-remove us.m_socket_key us.m_socket_key s.m_connection_map ∙ rw same refl

  -- A connection on which two users without sessions are named, one after the other, and that then
  -- closes leaves the first user's session in the table: the connection is in no table of
  -- connections, and naming the first user on any connection changes nothing from then on.
  pub add_session-ghost :
      (key2 svr3 : ℕ)
      → let t = on_dis_connect conn (add_session key second svr2 (add_session key first svr1 s)) in
        (find key t.m_connection_map ≡ none)
        × (find first t.m_session_map ≡ some conn)
        × (add_session key2 first svr3 t ≡ t)
  add_session-ghost key2 svr3 =
      rw (twice, closes)
        (
          ap (λ (k : ℕ). find k closed.m_connection_map) (sym key_of) ∙ gone,
          first_left,
          add_session-locked closed key2 first svr3 conn last_session first_left context_twice gone,
        )
