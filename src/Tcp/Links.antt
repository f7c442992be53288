-- ===== src/Tcp/Links.antt =====
-- The tables of `TcpServer` and the contexts of the connections: what ties them together.
pub mod Closed
pub mod Opened
pub mod Reached
use qclib.Base.{
  ℕ, zero, suc, ◌+◌, ◌%◌, ◌^◌, ◌≤◌, ◌<◌, ◌≡◌, ◌≢◌, ◌⊎◌, refl, sym, ap, subst, ◌∙◌, arith, Bool,
  true, false, List, [], ◌∷◌, ◌++◌, Option, none, some, ◌==◌, ==_iff, if◌then◌else◌, Bool-cases,
  Option-cases, inl, inr,
}
use qclib.Table.{
  Table, find, insert_new, remove, update, put, map_some, find-insert_new, find-remove, find-update,
  find-put,
}
use qclib.Tcp.{
  Conn, UserSession, TcpEvent, TcpServer, new_tcp_server, on_connect, on_dis_connect, add_session,
  dis_connect, send_msg_to_user, drop_session, set_event, add_new_session, old_session, shutdown_of,
}
use mathlib.Core.Option.{some-injective, none-ne-some}

-- A connection is found under the key in its context, and no key is above the counter.
pub record IsKeyed (s : TcpServer) (key : ℕ) (conn : Conn) : Type 0 where
  pub session : UserSession
  pub context : find conn s.contexts ≡ some session
  pub key_of : session.m_socket_key ≡ key
  pub counted : key ≤ s.m_socket_key_index

-- The connection of a user's session carries that user, and is still connected.
pub record IsOwned (s : TcpServer) (user : ℕ) (conn : Conn) : Type 0 where
  pub session : UserSession
  pub context : find conn s.contexts ≡ some session
  pub user_of : session.m_user_id ≡ user
  pub connected : find session.m_socket_key s.m_connection_map ≡ some conn

pub record IsLinked (s : TcpServer) : Type 0 where
  pub keyed : (key : ℕ) (conn : Conn) → find key s.m_connection_map ≡ some conn → IsKeyed s key conn
  pub owned : (user : ℕ) (conn : Conn) → find user s.m_session_map ≡ some conn → IsOwned s user conn

pub new_tcp_server-IsLinked : IsLinked new_tcp_server
unfolding find
new_tcp_server-IsLinked = record {
  keyed = λ key conn h. absurd (none-ne-some _ h);
  owned = λ user conn h. absurd (none-ne-some _ h);
}

-- The messages, the events and what is sent do not matter.
pub relink :
    (s t : TcpServer)
    → s.m_socket_key_index ≡ t.m_socket_key_index
    → s.contexts ≡ t.contexts
    → s.m_connection_map ≡ t.m_connection_map
    → s.m_session_map ≡ t.m_session_map
    → IsLinked s
    → IsLinked t
relink s t idx ctx conns sessions linked = record {
  keyed = λ k c h.
      let was = linked.keyed k c (ap (find k) conns ∙ h) in
      record {
        session = was.session;
        context = ap (find c) (sym ctx) ∙ was.context;
        key_of = was.key_of;
        counted = omega (arith, idx, was.counted);
      };
  owned = λ u c h.
      let was = linked.owned u c (ap (find u) sessions ∙ h) in
      record {
        session = was.session;
        context = ap (find c) (sym ctx) ∙ was.context;
        user_of = was.user_of;
        connected = ap (find was.session.m_socket_key) (sym conns) ∙ was.connected;
      };
}

-- `onConnect` of a connection that has had no context, while the counter has room.
module _ (s : TcpServer) (conn : Conn) (linked : IsLinked s) (fresh : find conn s.contexts ≡ none)
    (room : s.m_socket_key_index + 1 < 2 ^ 64) where
  abbrev next_key : ℕ
  next_key = (s.m_socket_key_index + 1) % 2 ^ 64

  next : next_key ≡ s.m_socket_key_index + 1
  next = omega arith

  key_fresh : find next_key s.m_connection_map ≡ none
  key_fresh = elim (Option-cases (find next_key s.m_connection_map)) [
    | inl e ↦ e
    | inr (c, e) ↦ absurd (omega (arith, next, (linked.keyed next_key c e).counted))
  ]

  abbrev opened : UserSession
  opened = record { m_socket_key = next_key; m_user_id = 0; m_session_server_id = 0 }

  context_new : find conn (put conn opened s.contexts) ≡ some opened
  context_new =
      let same : conn == conn ≡ true = ground arith in
      find-put conn conn opened s.contexts ∙ rw same refl

  -- A connection with a context is another one.
  context_old :
      (c : Conn) (us : UserSession)
      → find c s.contexts ≡ some us
      → find c (put conn opened s.contexts) ≡ some us
  context_old c us h = find-put c conn opened s.contexts ∙ elim (Bool-cases (conn == c)) [
    | inl e ↦
        absurd (
          none-ne-some us (sym fresh ∙ ap (λ (x : ℕ). find x s.contexts) ((==_iff conn c).0 e) ∙ h))
    | inr e ↦ rw e h
  ]

  connected_old :
      (k : ℕ) (c : Conn)
      → find k s.m_connection_map ≡ some c
      → find k (insert_new next_key conn s.m_connection_map) ≡ some c
  connected_old k c h =
      find-insert_new k next_key conn s.m_connection_map key_fresh
      ∙ elim (Bool-cases (next_key == k)) [
        | inl e ↦ absurd (
            none-ne-some c (
              sym key_fresh
              ∙ ap (λ (x : ℕ). find x s.m_connection_map) ((==_iff next_key k).0 e)
              ∙ h))
        | inr e ↦ rw e h
      ]

  on_connect-IsKeyed :
      (k : ℕ) (c : Conn)
      → find k (insert_new next_key conn s.m_connection_map) ≡ some c
      → IsKeyed (on_connect conn s) k c
  unfolding on_connect
  on_connect-IsKeyed k c h = elim (Bool-cases (next_key == k)) [
    | inl e ↦ record {
      session = opened;
      context =
          subst (λ (x : Conn). find x (put conn opened s.contexts) ≡ some opened) (mine e)
            context_new;
      key_of = (==_iff next_key k).0 e;
      counted = omega (arith, (==_iff next_key k).0 e);
    }
    | inr e ↦ old e (linked.keyed k c (later e))
  ]
    where
      found : (if next_key == k then some conn else find k s.m_connection_map) ≡ some c
      found = sym (find-insert_new k next_key conn s.m_connection_map key_fresh) ∙ h

      mine : next_key == k ≡ true → conn ≡ c
      mine e = some-injective conn c (rw e at found)

      later : next_key == k ≡ false → find k s.m_connection_map ≡ some c
      later e = rw e at found

      old : next_key == k ≡ false → IsKeyed s k c → IsKeyed (on_connect conn s) k c
      old e was = record {
        session = was.session;
        context = context_old c was.session was.context;
        key_of = was.key_of;
        counted = omega (arith, next, was.counted);
      }

  on_connect-IsOwned : (user : ℕ) (c : Conn) → IsOwned s user c → IsOwned (on_connect conn s) user c
  unfolding on_connect
  on_connect-IsOwned user c was = record {
    session = was.session;
    context = context_old c was.session was.context;
    user_of = was.user_of;
    connected = connected_old was.session.m_socket_key c was.connected;
  }

  pub on_connect-IsLinked : IsLinked (on_connect conn s)
  unfolding on_connect
  on_connect-IsLinked = record {
    keyed = on_connect-IsKeyed;
    owned = λ user c h. on_connect-IsOwned user c (linked.owned user c h);
  }
