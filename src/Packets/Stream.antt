-- ===== src/Packets/Stream.antt =====
-- The loops of `onMessage` on a stream of whole messages that arrives in chunks.
use qclib.Base.{
  ℕ, zero, suc, ◌+◌, ◌^◌, ◌≤◌, ◌<◌, ◌≡◌, refl, sym, ap, ◌∙◌, arith, Bool, true, false, List, [],
  ◌∷◌, ◌++◌, some, leb, ltb, if◌then◌else◌, length, drop, ◌>>=◌, length-append, length-replicate,
  Bool-cases, inl, inr,
}
use qclib.Packets.{Bytes, Message, get_le, write, packet_size, to_size_t, new_message, m_data_len}
use qclib.Packets.Memory.{get_le-append, take-append_at, drop-append_at, write-parts}
use qclib.Packets.Built.{packet_size-rounds}
use qclib.Packets.Nested.{block_size}
use qclib.Packets.Frames.{
  Buffer, IsLawful, received, enouth_data, new_msg_form_buffer, client_on_message,
}
use mathlib.Core.List.{append_assoc, append-nil}

-- A whole message: its block is as long as its own length field says.
abbrev pub IsWire : Message → Type 0
IsWire m = (m_data_len m + 17 < 2 ^ 31) × (length m ≡ block_size (m_data_len m))

abbrev pub AllWire : List Message → Type 0
AllWire [] = Unit
AllWire (m ∷ ms) = IsWire m × AllWire ms

abbrev pub concat : List Bytes → Bytes
concat [] = []
concat (bs ∷ bss) = bs ++ concat bss

pub concat-append : (xs ys : List Bytes) → concat (xs ++ ys) ≡ concat xs ++ concat ys
concat-append [] ys = refl
concat-append (x ∷ xs) ys =
    ap (λ (bs : Bytes). x ++ bs) (concat-append xs ys)
    ∙ sym (append_assoc x (concat xs) (concat ys))

-- The test of `enouthData` on the readable bytes.
abbrev pub enough : Bytes → Bool
enough bs =
    if ltb 4 (length bs) then leb (to_size_t (packet_size 32 (get_le 4 bs))) (length bs) else false

pub wire_size : (m : Message) → IsWire m → to_size_t (packet_size 32 (m_data_len m)) ≡ length m
wire_size m (h, e) = ground (arith, packet_size-rounds 32 (m_data_len m) (omega arith))

pub wire_long : (m : Message) → IsWire m → 16 ≤ length m
wire_long m (h, e) = omega arith

pub enough-wire : (m rest : Bytes) → IsWire m → enough (m ++ rest) ≡ true
enough-wire m rest h =
    let read : get_le 4 (m ++ rest) ≡ m_data_len m =
      get_le-append 4 m rest (omega (arith, wire_long m h)) in
    rw (read, wire_size m h) (ground (arith, length-append m rest, wire_long m h))

-- The first bytes of a message are not enough.
pub enough_short :
    (q s m rest : Bytes) → IsWire m → q ++ s ≡ m ++ rest → length q < length m → enough q ≡ false
enough_short q s m rest h e short = elim (Bool-cases (ltb 4 (length q))) [
  | inr few ↦ rw few refl
  | inl many ↦ rw (many, (read many), wire_size m h) (ground arith)
]
  where
    read : ltb 4 (length q) ≡ true → get_le 4 q ≡ m_data_len m
    read many =
        sym (get_le-append 4 q s (ground arith))
        ∙ ap (get_le 4) e
        ∙ get_le-append 4 m rest (omega (arith, wire_long m h))

module _ (S : Buffer) (lawful : IsLawful S) where
  pub enouth_data-enough : (b : S.State) → enouth_data S b ≡ enough (S.peek b)
  unfolding enouth_data
  enouth_data-enough b = rw (lawful.readable-peek b) refl

  -- One message is taken off the front of the buffer.
  new_msg-wire :
      (b : S.State) (m rest : Bytes)
      → IsWire m
      → S.peek b ≡ m ++ rest
      → new_msg_form_buffer S b ≡ some (m, S.retrieve b (length m))
  unfolding new_msg_form_buffer new_message
  new_msg-wire b m rest h e =
      let read : get_le 4 (m ++ rest) ≡ m_data_len m =
        get_le-append 4 m rest (omega (arith, wire_long m h)) in
      let copied : write 0 m (new_message (m_data_len m)) ≡ some m =
        rw (append-nil (new_message (m_data_len m)), append-nil m) at
          (write-parts 0 [] (new_message (m_data_len m)) m [] refl (fresh h)) in
      rw (e, read, wire_size m h, take-append_at (length m) m rest refl, copied) refl
    where
      fresh : IsWire m → length m ≡ length (new_message (m_data_len m))
      fresh h = omega (
        arith,
        h.1,
        packet_size-rounds 32 (m_data_len m) (omega (arith, h.0)),
        length-replicate {A = ℕ} (packet_size 32 (m_data_len m)) 0,
      )

  peek-retrieve_wire :
      (b : S.State) (m rest : Bytes)
      → S.peek b ≡ m ++ rest
      → S.peek (S.retrieve b (length m)) ≡ rest
  peek-retrieve_wire b m rest e =
      lawful.peek-retrieve b (length m)
        (omega (arith, lawful.readable-peek b, ap length e, length-append m rest))
      ∙ ap (drop (length m)) e
      ∙ drop-append_at (length m) m rest refl

  client_round :
      (fuel : ℕ) (b : S.State) (m rest : Bytes)
      → IsWire m
      → S.peek b ≡ m ++ rest
      → client_on_message S (suc fuel) b
        ≡ (client_on_message S fuel (S.retrieve b (length m)) >>= received S m)
  unfolding client_on_message
  client_round fuel b m rest h e =
      rw
        (
          client_on_message,
          enouth_data-enough b,
          e,
          enough-wire m rest h,
          new_msg-wire b m rest h e,
        )
        refl

  client_stop :
      (fuel : ℕ) (b : S.State)
      → enough (S.peek b) ≡ false
      → client_on_message S (suc fuel) b ≡ some ([], b)
  unfolding client_on_message
  client_stop fuel b h = rw (client_on_message, enouth_data-enough b, h) refl

  -- Whole messages at the front of the buffer are all read, and what is not enough for one is left.
  pub client-concat :
      (ms : List Message) (fuel : ℕ) (b : S.State) (r : Bytes)
      → AllWire ms
      → S.peek b ≡ concat ms ++ r
      → enough r ≡ false
      → length ms < fuel
      → (left : S.State) × (client_on_message S fuel b ≡ some (ms, left)) × (S.peek left ≡ r)
  client-concat ms zero b r hs e hr hf = absurd (omega arith)
  client-concat [] (suc fuel) b r hs e hr hf = (b, client_stop fuel b (ap enough e ∙ hr), e)
  client-concat (m ∷ ms) (suc fuel) b r (h, hs) e hr hf =
      let whole : S.peek b ≡ m ++ (concat ms ++ r) = e ∙ append_assoc m (concat ms) r in
      let (left, ran, rest) =
        client-concat ms fuel (S.retrieve b (length m)) r hs
          (peek-retrieve_wire b m (concat ms ++ r) whole) hr (omega arith) in
      (left, client_round fuel b m (concat ms ++ r) h whole ∙ rw ran refl, rest)
