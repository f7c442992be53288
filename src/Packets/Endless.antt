-- ===== src/Packets/Endless.antt =====
-- `TcpServer::onMessage` on lengths that a peer may choose: when its loop comes to an end.
use qclib.Base.{
  ℕ, zero, suc, ◌+◌, ◌%◌, ◌^◌, ◌≤◌, ◌<◌, ◌≡◌, ◌⊎◌, refl, sym, ap, ◌∙◌, arith, true, [], ◌∷◌, Option,
  none, some, length, take, drop, ◌++◌, leb, ◌>>=◌, length-drop, length-take, length-replicate,
  Option-cases, Bool-cases, inl, inr,
}
use qclib.Packets.{Bytes, Message, get_le, write, packet_size, round_num, to_size_t, new_message}
use qclib.Packets.Stream.{enough, enouth_data-enough}
use qclib.Packets.Loops.{server_on_message-client, client_more, stopped}
use qclib.Packets.Frames.{
  Buffer, IsLawful, Received, enouth_data, new_msg_form_buffer, server_on_message,
  client_on_message,
}
use mathlib.Core.Option.{some-injective, none-ne-some}
use native.Mathlib.Nat.{eq-zero-or-pos}

-- The size of the packet at the front, by its length field, as `retrieve` gets it.
abbrev front_size : Bytes → ℕ
front_size bs = to_size_t (packet_size 32 (get_le 4 bs))

-- A negative length from -17 to -10 makes a packet of no bytes.
packet_size_negative : (n : ℕ) → 2 ^ 32 ≤ n + 17 → n + 10 ≤ 2 ^ 32 → packet_size 32 n ≡ 0
unfolding packet_size round_num
packet_size_negative n low high = ground arith

write_room :
    (bs block : Bytes) → length bs ≤ length block → (m : Bytes) × (write 0 bs block ≡ some m)
unfolding write
write_room bs block h =
    let room : leb (0 + length bs) (length block) ≡ true = ground arith in
    (take 0 block ++ (bs ++ drop (0 + length bs) block), rw room refl)

-- What the loop comes to after some rounds, each of which takes a whole packet.
pub data Rounds (S : Buffer) : S.State → S.State → Type 0 where
  here : (b : S.State) → Rounds S b b
  round :
      (b b' : S.State) (p : Message × S.State)
      → enouth_data S b ≡ true
      → new_msg_form_buffer S b ≡ some p
      → Rounds S p.1 b'
      → Rounds S b b'

module _ (S : Buffer) (lawful : IsLawful S) where
  new_msg-retrieves :
      (b : S.State) (p : Message × S.State)
      → new_msg_form_buffer S b ≡ some p
      → p.1 ≡ S.retrieve b (front_size (S.peek b))
  unfolding new_msg_form_buffer
  new_msg-retrieves b p e =
      go (write 0 (take size (S.peek b)) (new_message (get_le 4 (S.peek b)))) e
    where
      size : ℕ
      size = front_size (S.peek b)

      go :
          (o : Option Message)
          → (o >>= λ (ptmp : Message). some (ptmp, S.retrieve b size)) ≡ some p
          → p.1 ≡ S.retrieve b size
      go none h = absurd (none-ne-some _ h)
      go (some m) h = sym (ap (λ (q : Message × S.State). q.1) (some-injective _ _ h))

  enough-size : (b : S.State) → enouth_data S b ≡ true → front_size (S.peek b) ≤ S.readable_bytes b
  unfolding enouth_data
  enough-size b h = ground arith

  enough_empty :
      (b : S.State)
      → 4 < S.readable_bytes b
      → packet_size 32 (get_le 4 (S.peek b)) ≡ 0
      → enouth_data S b ≡ true
  unfolding enouth_data
  enough_empty b many empty = rw empty (ground arith)

  -- What is left to read after a round.
  peek-round :
      (b : S.State) (p : Message × S.State)
      → enouth_data S b ≡ true
      → new_msg_form_buffer S b ≡ some p
      → S.peek p.1 ≡ drop (front_size (S.peek b)) (S.peek b)
  peek-round b p h e =
      ap S.peek (new_msg-retrieves b p e)
      ∙ lawful.peek-retrieve b (front_size (S.peek b)) (enough-size b h)

  readable-round :
      (b : S.State) (p : Message × S.State)
      → enouth_data S b ≡ true
      → new_msg_form_buffer S b ≡ some p
      → S.readable_bytes p.1 + front_size (S.peek b) ≡ S.readable_bytes b
  readable-round b p h e = omega (
    arith,
    lawful.readable-peek p.1,
    lawful.readable-peek b,
    ap length (peek-round b p h e),
    length-drop (front_size (S.peek b)) (S.peek b),
    enough-size b h,
  )

  -- A round on an empty packet leaves the readable bytes as they are, so the next one is the same.
  client_endless :
      (fuel : ℕ) (b : S.State)
      → front_size (S.peek b) ≡ 0
      → enouth_data S b ≡ true
      → client_on_message S fuel b ≡ none
  unfolding client_on_message
  client_endless zero b size h = refl
  client_endless (suc fuel) b size h = elim (Option-cases (new_msg_form_buffer S b)) [
    | inl e ↦ rw (client_on_message, h, e) refl
    | inr (p, e) ↦
        let same : S.peek p.1 ≡ S.peek b =
          peek-round b p h e ∙ ap (λ (n : ℕ). drop n (S.peek b)) size in
        let again : enouth_data S p.1 ≡ true =
          enouth_data-enough S lawful p.1
          ∙ ap enough same
          ∙ sym (enouth_data-enough S lawful b)
          ∙ h in
        client_more S fuel b p h e
        ∙ rw (client_endless fuel p.1 (ap front_size same ∙ size) again) refl
  ]

  -- A length that `front_size` makes nothing of, and one that the copy has room for.
  packet_size_empty : (n : ℕ) → to_size_t (packet_size 32 n) ≡ 0 → (n + 17) % 2 ^ 32 < 8
  unfolding packet_size round_num
  packet_size_empty n h = ground arith

  copies :
      (b : S.State)
      → enouth_data S b ≡ true
      → S.readable_bytes b < 2 ^ 31
      → (p : Message × S.State) × (new_msg_form_buffer S b ≡ some p)
  unfolding new_msg_form_buffer new_message
  copies b h few =
      let n = packet_size 32 (get_le 4 (S.peek b)) in
      let size : front_size (S.peek b) ≤ n = ground (arith, enough-size b h) in
      let (m, copied) =
        write_room (take (front_size (S.peek b)) (S.peek b)) (new_message (get_le 4 (S.peek b))) (
          omega (
            arith,
            size,
            length-take (front_size (S.peek b)) (S.peek b),
            length-replicate {A = ℕ} n 0,
          )) in
      ((m, S.retrieve b (front_size (S.peek b))), rw copied refl)

  -- The loop comes to an end within `n` rounds, or it comes to a packet of no bytes and has no end.
  abbrev EndsOrStays : ℕ → S.State → Type 0
  EndsOrStays n b =
      ((r : Received S) × (client_on_message S n b ≡ some r))
      ⊎ ((b' : S.State) × Rounds S b b'
          × (enouth_data S b' ≡ true)
          × ((get_le 4 (S.peek b') + 17) % 2 ^ 32 < 8)
          × ((fuel : ℕ) → client_on_message S fuel b ≡ none))

  never_later :
      (b : S.State) (p : Message × S.State)
      → enouth_data S b ≡ true
      → new_msg_form_buffer S b ≡ some p
      → ((fuel : ℕ) → client_on_message S fuel p.1 ≡ none)
      → (fuel : ℕ) → client_on_message S fuel b ≡ none
  unfolding client_on_message
  never_later b p h e never zero = refl
  never_later b p h e never (suc fuel) = client_more S fuel b p h e ∙ rw (never fuel) refl

  one_round :
      (n : ℕ) (b : S.State) (p : Message × S.State)
      → enouth_data S b ≡ true
      → new_msg_form_buffer S b ≡ some p
      → EndsOrStays n p.1
      → EndsOrStays (suc n) b
  one_round n b p h e (inl ((ms, left), ran)) =
      inl ((p.0 ∷ ms, left), client_more S n b p h e ∙ rw ran refl)
  one_round n b p h e (inr (b', rounds, more, none_lem, never)) =
      inr (b', round b b' p h e rounds, more, none_lem, never_later b p h e never)

  client-EndsOrStays :
      (n : ℕ) (b : S.State) → S.readable_bytes b < n → S.readable_bytes b < 2 ^ 31 → EndsOrStays n b
  client-EndsOrStays zero b hn few = absurd (omega arith)
  client-EndsOrStays (suc n) b hn few = elim (Bool-cases (enouth_data S b)) [
    | inr done ↦ inl (([], b), stopped S n b done)
    | inl h ↦
        let (p, e) = copies b h few in
        elim (eq-zero-or-pos (front_size (S.peek b))) [
          | inl empty ↦
              inr (b, here b, h, packet_size_empty _ empty, λ fuel. client_endless fuel b empty h)
          | inr some_bytes ↦ one_round n b p h e (
              client-EndsOrStays n p.1 (omega (arith, readable-round b p h e))
                (omega (arith, readable-round b p h e)))
        ]
  ]

  -- On a buffer of less than 2 ^ 31 bytes, the loop of the server ends within as many rounds as there
  -- are readable bytes and one, unless it comes, after some whole packets, to one that it takes for
  -- whole and whose length is from -17 to -10 (modulo 2 ^ 32); then no number of rounds is enough.
  pub server_on_message-ends :
      (b : S.State)
      → S.readable_bytes b < 2 ^ 31
      → ((r : Received S) × (server_on_message S (suc (S.readable_bytes b)) b ≡ some r))
        ⊎ ((b' : S.State) × Rounds S b b'
            × (enouth_data S b' ≡ true)
            × ((get_le 4 (S.peek b') + 17) % 2 ^ 32 < 8)
            × ((fuel : ℕ) → server_on_message S fuel b ≡ none))
  server_on_message-ends b few =
      elim (client-EndsOrStays (suc (suc (S.readable_bytes b))) b (omega arith) few) [
        | inl (r, ran) ↦ inl (r, server_on_message-client S (suc (S.readable_bytes b)) b ∙ ran)
        | inr (b', rounds, more, none_lem, never) ↦ inr (
          b',
          rounds,
          more,
          none_lem,
          λ fuel. server_on_message-client S fuel b ∙ never (suc fuel),
        )
      ]

  -- Five readable bytes of which the first four are a length from -17 to -10 keep the loop of the
  -- server running for ever.
  pub server_on_message-endless :
      (b : S.State) (fuel : ℕ)
      → 4 < S.readable_bytes b
      → 2 ^ 32 ≤ get_le 4 (S.peek b) + 17
      → get_le 4 (S.peek b) + 10 ≤ 2 ^ 32
      → server_on_message S fuel b ≡ none
  server_on_message-endless b fuel many low high =
      let empty : packet_size 32 (get_le 4 (S.peek b)) ≡ 0 =
        packet_size_negative (get_le 4 (S.peek b)) low high in
      server_on_message-client S fuel b
      ∙ client_endless (suc fuel) b (ap to_size_t empty) (enough_empty b many empty)
