-- ===== src/Packets/Loops.antt =====
-- The loops of `TcpServer::onMessage` and of `TcpClient::onMessage` beside each other.
use qclib.Base.{
  ℕ, zero, suc, ◌≡◌, refl, sym, ap, ◌∙◌, Bool, true, false, [], ◌∷◌, Option, some, ◌>>=◌,
  Option-cases, Bool-cases, inl, inr,
}
use qclib.Packets.{Message}
use qclib.Packets.Frames.{
  Buffer, Received, received, enouth_data, new_msg_form_buffer, server_do_loop, server_on_message,
  client_on_message,
}

module _ (S : Buffer) where
  after_round : ℕ → Message × S.State → Bool → Option (Received S)
  unfolding server_do_loop
  after_round fuel p more = elim more [
    | true ↦ server_do_loop S fuel p.1 >>= received S p.0
    | false ↦ some (p.0 ∷ [], p.1)
  ]

  server_round :
      (fuel : ℕ) (b : S.State) (p : Message × S.State) (more : Bool)
      → new_msg_form_buffer S b ≡ some p
      → enouth_data S p.1 ≡ more
      → server_do_loop S (suc fuel) b ≡ after_round fuel p more
  unfolding server_do_loop after_round
  server_round fuel b p more e h = rw (server_do_loop, e) (ap (after_round fuel p) h)

  pub client_more :
      (fuel : ℕ) (b : S.State) (p : Message × S.State)
      → enouth_data S b ≡ true
      → new_msg_form_buffer S b ≡ some p
      → client_on_message S (suc fuel) b ≡ (client_on_message S fuel p.1 >>= received S p.0)
  unfolding client_on_message
  client_more fuel b p h e = rw (client_on_message, h, e) refl

  pub stopped :
      (fuel : ℕ) (b : S.State)
      → enouth_data S b ≡ false
      → client_on_message S (suc fuel) b ≡ some ([], b)
  unfolding client_on_message
  stopped fuel b h = rw (client_on_message, h) refl

  server_do_loop-client :
      (fuel : ℕ) (b : S.State)
      → enouth_data S b ≡ true
      → server_do_loop S fuel b ≡ client_on_message S (suc fuel) b
  unfolding server_do_loop client_on_message after_round
  server_do_loop-client zero b h = elim (Option-cases (new_msg_form_buffer S b)) [
    | inl e ↦ rw (client_on_message, h, e) refl
    | inr (p, e) ↦ rw (client_on_message, h, e) refl
  ]
  server_do_loop-client (suc fuel) b h = elim (Option-cases (new_msg_form_buffer S b)) [
    | inl e ↦ rw (client_on_message, h, e) refl
    | inr (p, e) ↦ elim (Bool-cases (enouth_data S p.1)) [
      | inl more ↦
          server_round fuel b p true e more
          ∙ ap (λ (r : Option (Received S)). r >>= received S p.0)
              (server_do_loop-client fuel p.1 more)
          ∙ sym (client_more (suc fuel) b p h e)
      | inr done ↦
          server_round fuel b p false e done
          ∙ sym (
              client_more (suc fuel) b p h e
              ∙ ap (λ (r : Option (Received S)). r >>= received S p.0) (stopped fuel p.1 done))
    ]
  ]

  -- The `do` loop of the server and the loop of the client read the same messages and leave the same
  -- buffer, in any state of it and with any bound on the rounds, of which the client needs one more.
  pub server_on_message-client :
      (fuel : ℕ) (b : S.State) → server_on_message S fuel b ≡ client_on_message S (suc fuel) b
  unfolding server_on_message client_on_message
  server_on_message-client fuel b = elim (Bool-cases (enouth_data S b)) [
    | inl more ↦ rw more (server_do_loop-client fuel b more)
    | inr done ↦ rw done (sym (stopped fuel b done))
  ]
