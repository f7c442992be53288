-- ===== src/Tcp/Links/Closed.antt =====
-- `TcpServer::onDisConnect`, and the calls that only shut a connection.
use qclib.Base.{
  ℕ, ◌≡◌, refl, sym, ap, ◌∙◌, arith, false, Option, none, some, ◌==◌, ==_iff, if◌then◌else◌,
  Bool-cases, inl, inr,
}
use qclib.Table.{Table, find, remove, find-remove}
use qclib.Tcp.{Conn, UserSession, TcpServer, on_dis_connect, dis_connect, drop_session, shutdown_of}
use qclib.Tcp.Links.{IsOwned, IsLinked, relink}
use mathlib.Core.Option.{some-injective, none-ne-some}

-- What is left in a table after a key is gone was there before.
find-remove-some :
    {A : Type 0} (i k : ℕ) (t : Table A) (a : A)
    → find i (remove k t) ≡ some a
    → (k == i ≡ false) × (find i t ≡ some a)
find-remove-some i k t a h = elim (Bool-cases (k == i)) [
  | inl e ↦ absurd (none-ne-some a (rw e at found))
  | inr e ↦ (e, rw e at found)
]
  where
    found : (if k == i then none else find i t) ≡ some a
    found = sym (find-remove i k t) ∙ h

pub shutdown_of-IsLinked :
    (o : Option Conn) (s : TcpServer) → IsLinked s → IsLinked (shutdown_of o s)
shutdown_of-IsLinked none s linked = linked
shutdown_of-IsLinked (some conn) s linked = relink s _ refl refl refl refl linked

pub dis_connect-IsLinked :
    (socket_key : ℕ) (s : TcpServer) → IsLinked s → IsLinked (dis_connect socket_key s)
unfolding dis_connect
dis_connect-IsLinked socket_key s linked =
    shutdown_of-IsLinked (find socket_key s.m_connection_map) s linked

module _ (s : TcpServer) (conn : Conn) (us : UserSession) (linked : IsLinked s)
    (context : find conn s.contexts ≡ some us)
    (connected : find us.m_socket_key s.m_connection_map ≡ some conn) where
  -- The session of another user is on a connection with another key.
  key_ne :
      (u : ℕ) (c : Conn) (was : IsOwned s u c)
      → us.m_user_id == u ≡ false
      → us.m_socket_key == was.session.m_socket_key ≡ false
  key_ne u c was ne = elim (Bool-cases (us.m_socket_key == was.session.m_socket_key)) [
    | inr e ↦ e
    | inl e ↦
        let same : conn ≡ c = some-injective conn c (
          sym connected
          ∙ ap (λ (k : ℕ). find k s.m_connection_map)
              ((==_iff us.m_socket_key was.session.m_socket_key).0 e)
          ∙ was.connected) in
        let session : us ≡ was.session =
          some-injective us was.session
            (sym context ∙ ap (λ (x : Conn). find x s.contexts) same ∙ was.context) in
        let user : us.m_user_id ≡ u = ap (λ (x : UserSession). x.m_user_id) session ∙ was.user_of in
        absurd (ground (arith, user, ne))
  ]

  dropped : IsLinked (drop_session (some us) s)
  dropped = record {
    keyed = λ k c h.
        let (ne, there) = find-remove-some k us.m_socket_key s.m_connection_map c h in
        let was = linked.keyed k c there in
        record {
          session = was.session;
          context = was.context;
          key_of = was.key_of;
          counted = was.counted;
        };
    owned = λ u c h.
        let (ne, there) = find-remove-some u us.m_user_id s.m_session_map c h in
        let was = linked.owned u c there in
        record {
          session = was.session;
          context = was.context;
          user_of = was.user_of;
          connected =
              find-remove was.session.m_socket_key us.m_socket_key s.m_connection_map
              ∙ rw (key_ne u c was ne) was.connected;
        };
  }

  pub on_dis_connect-IsLinked : IsLinked (on_dis_connect conn s)
  unfolding on_dis_connect
  on_dis_connect-IsLinked = rw context dropped
