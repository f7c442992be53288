-- ===== src/Game/Chat.antt =====
-- projects/logic_svr/chat_module.cpp: who gets a chat message. The generated `ChatMessage` is a record of
-- the fields that the module reads, and `pdata` its bytes.
use qclib.Base.{ℕ, ◌≡◌, sym, ap, ◌∙◌, List, [], ◌∷◌, ◌++◌, map, ◌==◌, if◌then◌else◌}
use qclib.Game.{Game, Notice, chat, get_object_id, get_all_user_id, send}
use mathlib.Core.List.{append_assoc, append-nil}

pub data ChatType : Type 0 where
  chat_type_world chat_type_private other_type : ChatType

pub record ChatMessage : Type 0 where
  pub chat_type : ChatType
  pub from_player_only_id : ℕ
  pub to_player_only_id : ℕ

-- `SendResponse`
abbrev pub send_response : Game → List ℕ → List ℕ → Game
send_response g [] pdata = g
send_response g (user ∷ users) pdata = send_response (send g (chat user pdata)) users pdata

unfoldable pub process_chat_message : Game → ChatMessage → List ℕ → Game
process_chat_message g msg pdata = elim msg.chat_type [
  | chat_type_world ↦ send_response g (get_all_user_id g) pdata
  | chat_type_private ↦
      if get_object_id g msg.to_player_only_id == 0
      then g
      else send g (chat msg.to_player_only_id pdata)
  | other_type ↦ g
]

-- `DoModuleMessage` on a CHAT_CMD: the sender that the message names must be logged in.
unfoldable pub do_chat : Game → ChatMessage → List ℕ → Game
do_chat g msg pdata =
    if get_object_id g msg.from_player_only_id == 0 then g else process_chat_message g msg pdata

-- A message to all goes to each user of the table once, behind what was sent.
send_response-sent :
    (g : Game) (users pdata : List ℕ)
    → send_response g users pdata
      ≡ record g { sent = g.sent ++ map (λ (user : ℕ). chat user pdata) users }
unfolding send
send_response-sent g [] pdata =
    ap (λ (ns : List Notice). record g { sent = ns }) (sym (append-nil g.sent))
send_response-sent g (user ∷ users) pdata =
    send_response-sent (send g (chat user pdata)) users pdata
    ∙ ap (λ (ns : List Notice). record g { sent = ns })
        (append_assoc g.sent (chat user pdata ∷ []) (map (λ (u : ℕ). chat u pdata) users))
