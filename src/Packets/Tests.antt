-- ===== src/Packets/Tests.antt =====
-- Runs of the messages and of the loops on a buffer that is the list of its readable bytes, and the
-- theorems at concrete inputs.
use qclib.Base.{
  ℕ, ◌+◌, ◌%◌, ◌^◌, ◌<◌, ◌≡◌, ◌⊎◌, refl, arith, true, [], ◌∷◌, ◌++◌, none, some, length, take, drop,
  replicate, ◌>>=◌, length-replicate,
}
use qclib.Packets.{
  Bytes, Message, MsgInServer, get_le, le, write, packet_size, round_num, push_back, set_message,
  set_server_message, set_server_message_ack, set_other_svr_msg, set_server_new_message,
  new_message, analyze_svr_msg, msg_in_server_bytes, transit_cmd, transit_ack,
}
use qclib.Packets.Built.{frame}
use qclib.Packets.Nested.{analyze-set_other_svr_msg}
use qclib.Packets.Frames.{
  Buffer, IsLawful, Received, enouth_data, new_msg_form_buffer, client_on_message,
  server_on_message, server_do_loop, feed,
}
use qclib.Packets.Loops.{server_on_message-client}
use qclib.Packets.Chunks.{feed-concat}
use qclib.Packets.Sent.{frame-IsWire, set_server_message-other}
use qclib.Packets.Endless.{Rounds, server_on_message-ends, server_on_message-endless}

abbrev pub byte_list : Buffer
byte_list = record {
  State = Bytes;
  readable_bytes = λ bs. length bs;
  peek = λ bs. bs;
  append = λ bs more. bs ++ more;
  retrieve = λ bs n. drop n bs;
}

pub byte_list-IsLawful : IsLawful byte_list
byte_list-IsLawful = record {
  readable-peek = λ b. refl;
  peek-append = λ b bs. refl;
  peek-retrieve = λ b n h. refl;
}

abbrev pub hello : Bytes
hello = 104 ∷ 105 ∷ []

abbrev pub user_7 : MsgInServer
user_7 = record { m_user_only_id = 7; m_server_id = 258 }

abbrev nobody : MsgInServer
nobody = record { m_user_only_id = 0; m_server_id = 0 }

hello-frame :
    frame 0x0201 hello ≡ 2 ∷ 0 ∷ 0 ∷ 0 ∷ 0 ∷ 0 ∷ 0 ∷ 0 ∷ 1 ∷ 2 ∷ 104 ∷ 105 ∷ 0 ∷ 0 ∷ 0 ∷ 0 ∷ []
unfolding le
hello-frame = refl

set_message-hello :
    set_message (replicate 17 9) 0x0201 hello 2 ≡ some (frame 0x0201 hello ++ (9 ∷ []))
unfolding set_message packet_size round_num write push_back le get_le
set_message-hello = refl

two_in_three :
    feed byte_list (take 5 (frame 1 hello) ∷ (drop 5 (frame 1 hello) ++ (1 ∷ [])) ∷ []) []
    ≡ some (frame 1 hello ∷ [], 1 ∷ [])
unfolding feed server_on_message server_do_loop enouth_data new_msg_form_buffer packet_size
    round_num write new_message le get_le
two_in_three = refl

-- What the allocator left in the first bytes of a fresh block is taken for a length.
new_message_unset : set_server_new_message (5 ∷ replicate 39 0) user_7 (frame 1 hello) 2 ≡ none
unfolding set_server_new_message packet_size round_num write push_back le get_le msg_in_server_bytes
new_message_unset = refl

feed-concat_example :
    (left : Bytes) × (feed byte_list (take 5 (frame 1 hello) ∷ drop 5 (frame 1 hello) ∷ []) []
      ≡ some (frame 1 hello ∷ [], left))
    × (left ≡ [])
unfolding le
feed-concat_example =
    feed-concat byte_list byte_list-IsLawful (take 5 (frame 1 hello) ∷ drop 5 (frame 1 hello) ∷ [])
      (frame 1 hello ∷ []) [] (frame-IsWire 1 hello (omega arith), tt) refl refl

server_on_message-client_example :
    server_on_message byte_list 3 (frame 1 hello) ≡ client_on_message byte_list 4 (frame 1 hello)
server_on_message-client_example = server_on_message-client byte_list 3 (frame 1 hello)

server_on_message-ends_example :
    ((r : Received byte_list) × (server_on_message byte_list 18 (frame 1 hello ++ (1 ∷ []))
        ≡ some r))
    ⊎ ((b' : Bytes) × Rounds byte_list (frame 1 hello ++ (1 ∷ [])) b'
        × (enouth_data byte_list b' ≡ true)
        × ((get_le 4 b' + 17) % 2 ^ 32 < 8)
        × ((fuel : ℕ) → server_on_message byte_list fuel (frame 1 hello ++ (1 ∷ [])) ≡ none))
unfolding le
server_on_message-ends_example =
    server_on_message-ends byte_list byte_list-IsLawful (frame 1 hello ++ (1 ∷ [])) (omega arith)

server_on_message-endless_example :
    server_on_message byte_list 1000 (246 ∷ 255 ∷ 255 ∷ 255 ∷ 0 ∷ []) ≡ none
unfolding get_le
server_on_message-endless_example =
    server_on_message-endless byte_list byte_list-IsLawful (246 ∷ 255 ∷ 255 ∷ 255 ∷ 0 ∷ []) 1000
      (omega arith) (omega arith) (omega arith)

set_server_message-other_example :
    (set_server_message (replicate 48 0) user_7 (frame 1 hello) 2
      ≡ set_other_svr_msg (replicate 48 0) transit_cmd user_7 (frame 1 hello) 2)
    × (set_server_message_ack (replicate 48 0) user_7 (frame 1 hello) 2
        ≡ set_other_svr_msg (replicate 48 0) transit_ack user_7 (frame 1 hello) 2)
set_server_message-other_example =
    set_server_message-other (replicate 48 0) (frame 1 hello) user_7 2 (omega arith)

analyze-set_other_svr_msg_example :
    (left : Bytes) × ((set_other_svr_msg
          (replicate 65535 0)
          transit_ack
          user_7
          (frame 1 hello ++ [])
          2
        >>= λ (msg : Message). some (analyze_svr_msg (some msg) nobody))
      ≡ some (some (frame 1 hello ++ left), transit_ack, user_7))
analyze-set_other_svr_msg_example =
    analyze-set_other_svr_msg (replicate 65535 0) hello [] user_7 nobody 1 transit_ack
      (length-replicate {A = ℕ} 65535 0) (omega arith) (omega arith) (omega arith) (omega arith)
      (omega arith)
