-- ===== src/Tcp/Links/Opened.antt =====
-- `TcpServer::AddSession`.
use qclib.Base.{
  ℕ, ◌≡◌, refl, sym, ap, subst, ◌∙◌, arith, true, false, Option, none, some, ◌==◌, ==_iff,
  if◌then◌else◌, Bool-cases, Option-cases, inl, inr,
}
use qclib.Table.{find, find-insert_new, find-update}
use qclib.Tcp.{Conn, UserSession, TcpServer, add_session, add_new_session, old_session}
use qclib.Tcp.Links.{IsKeyed, IsOwned, IsLinked}
use qclib.Tcp.Links.Closed.{dis_connect-IsLinked}
use mathlib.Core.Option.{some-injective, none-ne-some}

old_session-IsLinked :
    (socket_key : ℕ) (o : Option UserSession) (s : TcpServer)
    → IsLinked s
    → IsLinked (old_session socket_key o s)
old_session-IsLinked socket_key none s linked = linked
old_session-IsLinked socket_key (some us) s linked =
    elim (Bool-cases (socket_key == us.m_socket_key)) [
      | inl e ↦ rw e linked
      | inr e ↦ rw e (dis_connect-IsLinked us.m_socket_key s linked)
    ]

-- A session for a user who has none, on a connection whose context names no user with a session.
module _ (s : TcpServer) (socket_key user_id svrid : ℕ) (conn : Conn) (us : UserSession)
    (linked : IsLinked s) (connected : find socket_key s.m_connection_map ≡ some conn)
    (context : find conn s.contexts ≡ some us) (no_user : find us.m_user_id s.m_session_map ≡ none)
    (no_session : find user_id s.m_session_map ≡ none) where
  abbrev name_user : UserSession → UserSession
  name_user session = record session { m_user_id = user_id; m_session_server_id = svrid }

  abbrev added : TcpServer
  added = add_new_session (some conn) user_id svrid s

  context_named : find conn added.contexts ≡ some (name_user us)
  context_named =
      let same : conn == conn ≡ true = ground arith in
      find-update conn conn name_user s.contexts ∙ rw (same, context) refl

  context_other :
      (c : Conn) (session : UserSession)
      → conn == c ≡ false
      → find c s.contexts ≡ some session
      → find c added.contexts ≡ some session
  context_other c session ne h = find-update c conn name_user s.contexts ∙ rw ne h

  add_new_session-IsKeyed : (k : ℕ) (c : Conn) → IsKeyed s k c → IsKeyed added k c
  add_new_session-IsKeyed k c was = elim (Bool-cases (conn == c)) [
    | inr e ↦ record {
      session = was.session;
      context = context_other c was.session e was.context;
      key_of = was.key_of;
      counted = was.counted;
    }
    | inl e ↦ record {
      session = name_user was.session;
      context = find-update c conn name_user s.contexts ∙ rw (e, was.context) refl;
      key_of = was.key_of;
      counted = was.counted;
    }
  ]

  key_of_us : us.m_socket_key ≡ socket_key
  key_of_us =
      let was = linked.keyed socket_key conn connected in
      ap (λ (x : UserSession). x.m_socket_key)
        (some-injective us was.session (sym context ∙ was.context))
      ∙ was.key_of

  -- The connection has no session of another user.
  owner_ne : (u : ℕ) (c : Conn) → find u s.m_session_map ≡ some c → conn == c ≡ false
  owner_ne u c h = elim (Bool-cases (conn == c)) [
    | inr e ↦ e
    | inl e ↦
        let was = linked.owned u c h in
        let session : us ≡ was.session = some-injective us was.session (
          sym context ∙ ap (λ (x : Conn). find x s.contexts) ((==_iff conn c).0 e) ∙ was.context) in
        let user : us.m_user_id ≡ u = ap (λ (x : UserSession). x.m_user_id) session ∙ was.user_of in
        absurd (none-ne-some c (sym no_user ∙ ap (λ (x : ℕ). find x s.m_session_map) user ∙ h))
  ]

  add_new_session-IsOwned_new : IsOwned added user_id conn
  add_new_session-IsOwned_new = record {
    session = name_user us;
    context = context_named;
    user_of = refl;
    connected = ap (λ (k : ℕ). find k s.m_connection_map) key_of_us ∙ connected;
  }

  add_new_session-IsOwned_old :
      (u : ℕ) (c : Conn) → find u s.m_session_map ≡ some c → IsOwned added u c
  add_new_session-IsOwned_old u c h =
      let was = linked.owned u c h in
      record {
        session = was.session;
        context = context_other c was.session (owner_ne u c h) was.context;
        user_of = was.user_of;
        connected = was.connected;
      }

  add_new_session-IsOwned :
      (u : ℕ) (c : Conn) → find u added.m_session_map ≡ some c → IsOwned added u c
  add_new_session-IsOwned u c h = elim (Bool-cases (user_id == u)) [
    | inl e ↦
        subst (λ (x : ℕ). IsOwned added x c) ((==_iff user_id u).0 e)
          (subst (λ (x : Conn). IsOwned added user_id x) (some-injective conn c (rw e at found))
            add_new_session-IsOwned_new)
    | inr e ↦ add_new_session-IsOwned_old u c (rw e at found)
  ]
    where
      found : (if user_id == u then some conn else find u s.m_session_map) ≡ some c
      found = sym (find-insert_new u user_id conn s.m_session_map no_session) ∙ h

  add_new_session-IsLinked : IsLinked added
  add_new_session-IsLinked = record {
    keyed = λ k c h. add_new_session-IsKeyed k c (linked.keyed k c h);
    owned = add_new_session-IsOwned;
  }

-- The connection that the key stands for has a context whose user has no session.
abbrev pub HasNoUser : ℕ → TcpServer → Type 0
HasNoUser socket_key s =
    (conn : Conn) (us : UserSession)
    → find socket_key s.m_connection_map ≡ some conn
    → find conn s.contexts ≡ some us
    → find us.m_user_id s.m_session_map ≡ none

pub add_session-IsLinked :
    (s : TcpServer) (socket_key user_id svrid : ℕ)
    → IsLinked s
    → HasNoUser socket_key s
    → IsLinked (add_session socket_key user_id svrid s)
unfolding add_session
add_session-IsLinked s socket_key user_id svrid linked no_user =
    elim (Option-cases (find user_id s.m_session_map)) [
      | inr (conn, e) ↦
          rw (add_session, e) (old_session-IsLinked socket_key (find conn s.contexts) s linked)
      | inl e ↦
          rw (add_session, e)
            (elim (Option-cases (find socket_key s.m_connection_map)) [
              | inl gone ↦ rw gone linked
              | inr (conn, there) ↦
                  let was = linked.keyed socket_key conn there in
                  rw there (
                    add_new_session-IsLinked s socket_key user_id svrid conn was.session linked
                      there was.context (no_user conn was.session there was.context) e)
            ])
    ]
