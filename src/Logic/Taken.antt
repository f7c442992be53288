-- ===== src/Logic/Taken.antt =====
-- projects/logic_svr/logic_manager.cpp: which messages from the gate reach the logic thread.
use qclib.Base.{
  suc, ◌+◌, ◌≤◌, ◌<◌, ◌≡◌, refl, sym, ap, subst, ◌∙◌, arith, true, false, List, [], ◌∷◌, ◌++◌, ◌==◌,
  ==_iff, if◌then◌else◌, length, Bool-cases, inl, inr,
}
use qclib.LoopArray.Refine.{size-push_back, capacity-push_back}
use qclib.LogicThread.{LogicThread, on_set_message}
use qclib.LogicThread.Order.{IsOrdered, set_message-IsOrdered}
use qclib.Packets.{Message, m_whole_cmd, transit_cmd}
use qclib.Gate.{svrlogin_ack, heart_cmd}
use qclib.Logic.{LogicManager, client_msg, on_client_msg}
use mathlib.Core.List.{append_assoc, append-nil}

-- The messages that the gate passes on from clients.
abbrev pub transits : List Message → List Message
transits [] = []
transits (m ∷ ms) = if m_whole_cmd m == transit_cmd then m ∷ transits ms else transits ms

-- The logic thread takes one more message, where its outer queue has room.
set_message-accepted :
    (null msg : Message) (s : LogicThread Message)
    → IsOrdered null s
    → s.outer.size < s.outer.capacity
    → ((on_set_message s msg).accepted ≡ s.accepted ++ (msg ∷ []))
      × ((on_set_message s msg).outer.size ≡ s.outer.size + 1)
      × ((on_set_message s msg).outer.capacity ≡ s.outer.capacity)
unfolding on_set_message
set_message-accepted null msg s v room =
    let (done, grown) = size-push_back msg v.outer_ok room in
    (rw done refl, grown, capacity-push_back s.outer msg)

-- Any other message leaves the logic thread alone.
client_msg-other :
    (msg : Message) (l : LogicManager)
    → m_whole_cmd msg == transit_cmd ≡ false
    → (client_msg msg l).m_main_logic_thread ≡ l.m_main_logic_thread
unfolding client_msg
client_msg-other msg l h = elim (Bool-cases (m_whole_cmd msg == svrlogin_ack)) [
  | inl e ↦ rw (client_msg, e) refl
  | inr e ↦ elim (Bool-cases (m_whole_cmd msg == heart_cmd)) [
    | inl k ↦ rw (client_msg, e, k) refl
    | inr k ↦ rw (client_msg, e, k, h) refl
  ]
]

client_msg-transit :
    (msg : Message) (l : LogicManager)
    → m_whole_cmd msg == transit_cmd ≡ true
    → (client_msg msg l).m_main_logic_thread ≡ on_set_message l.m_main_logic_thread msg
unfolding client_msg
client_msg-transit msg l h =
    let is_transit = (==_iff (m_whole_cmd msg) transit_cmd).0 h in
    let not_ack : m_whole_cmd msg == svrlogin_ack ≡ false = ground (arith, is_transit) in
    let not_heart : m_whole_cmd msg == heart_cmd ≡ false = ground (arith, is_transit) in
    rw (client_msg, not_ack, not_heart, h) refl

-- While the queue of the logic thread has room for all of them, the messages under TRANSIT_CMD among
-- those that came from the gate are accepted in their order, and no others; the queues of the thread
-- stay valid, and what is dispatched and on its way stays in the order of acceptance.
pub on_client_msg-transits :
    (null : Message) (msgs : List Message) (l : LogicManager)
    → let s = l.m_main_logic_thread in
      IsOrdered null s
      → s.outer.size + length (transits msgs) ≤ s.outer.capacity
      → let t = (on_client_msg msgs l).m_main_logic_thread in
        (t.accepted ≡ s.accepted ++ transits msgs) × IsOrdered null t
unfolding on_client_msg
on_client_msg-transits null [] l v room = (sym (append-nil l.m_main_logic_thread.accepted), v)
on_client_msg-transits null (msg ∷ msgs) l v room =
    elim (Bool-cases (m_whole_cmd msg == transit_cmd)) [
      | inl e ↦
          let s = l.m_main_logic_thread in
          let same = client_msg-transit msg l e in
          let fits : s.outer.size + suc (length (transits msgs)) ≤ s.outer.capacity =
            rw e at room in
          let (acc, grown, cap) = set_message-accepted null msg s v (omega (arith, fits)) in
          let size = ap (λ (t : LogicThread Message). t.outer.size) same in
          let capacity = ap (λ (t : LogicThread Message). t.outer.capacity) same in
          let ordered = subst (IsOrdered null) (sym same) (set_message-IsOrdered null s msg v) in
          let (later, w) =
            on_client_msg-transits null msgs (client_msg msg l) ordered
              (omega (arith, fits, grown, cap, size, capacity)) in
          (
            rw e (
                later
                ∙ ap (λ (t : LogicThread Message). t.accepted ++ transits msgs) same
                ∙ ap (λ (ms : List Message). ms ++ transits msgs) acc
                ∙ append_assoc s.accepted (msg ∷ []) (transits msgs)),
            w,
          )
      | inr e ↦
          let s = l.m_main_logic_thread in
          let same = client_msg-other msg l e in
          let fits : s.outer.size + length (transits msgs) ≤ s.outer.capacity = rw e at room in
          let size = ap (λ (t : LogicThread Message). t.outer.size) same in
          let capacity = ap (λ (t : LogicThread Message). t.outer.capacity) same in
          let (later, w) =
            on_client_msg-transits null msgs (client_msg msg l)
              (subst (IsOrdered null) (sym same) v) (omega (arith, fits, size, capacity)) in
          (rw e (later ∙ ap (λ (t : LogicThread Message). t.accepted ++ transits msgs) same), w)
    ]
