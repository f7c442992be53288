-- ===== src/Packets/Chunks.antt =====
-- `onMessage` on the bytes of whole messages that arrive in any chunks.
use qclib.Base.{
  ℕ, zero, suc, ◌≤◌, ◌≡◌, refl, sym, ap, ap₂, ◌∙◌, arith, true, false, List, [], ◌∷◌, ◌++◌, some,
  leb, length, take, drop, length-append, take-append-drop, Bool-cases, inl, inr, leb→le,
}
use qclib.Packets.{Bytes, Message}
use qclib.Packets.Memory.{take-append_at, drop-append_at}
use qclib.Packets.Frames.{Buffer, IsLawful, server_on_message, feed}
use mathlib.Core.List.{append_assoc, append-nil}
use qclib.Packets.Stream.{
  IsWire, AllWire, concat, enough, enough_short, enough-wire, wire_long, client-concat,
}
use qclib.Packets.Loops.{server_on_message-client}

-- A cut of a stream of whole messages at any byte.
record StreamCut (q s : Bytes) (ms : List Message) : Type 0 where
  front : List Message
  back : List Message
  part : Bytes
  messages : ms ≡ front ++ back
  before : q ≡ concat front ++ part
  behind : part ++ s ≡ concat back
  not_enough : enough part ≡ false
  front_wire : AllWire front
  back_wire : AllWire back

take_prefix : (n : ℕ) (xs ys : Bytes) → n ≤ length xs → take n (xs ++ ys) ≡ take n xs
take_prefix zero xs ys h = refl
take_prefix (suc n) [] ys h = absurd (omega arith)
take_prefix (suc n) (x ∷ xs) ys h = ap (λ (zs : Bytes). x ∷ zs) (take_prefix n xs ys (omega arith))

drop_prefix : (n : ℕ) (xs ys : Bytes) → n ≤ length xs → drop n (xs ++ ys) ≡ drop n xs ++ ys
drop_prefix zero xs ys h = refl
drop_prefix (suc n) [] ys h = absurd (omega arith)
drop_prefix (suc n) (x ∷ xs) ys h = drop_prefix n xs ys (omega arith)

whole_front :
    (q s m : Bytes) (ms : List Message)
    → q ++ s ≡ m ++ concat ms
    → length m ≤ length q
    → take (length m) q ≡ m
whole_front q s m ms e long =
    sym (take_prefix (length m) q s long)
    ∙ ap (take (length m)) e
    ∙ take-append_at (length m) m (concat ms) refl

whole_rest :
    (q s m : Bytes) (ms : List Message)
    → q ++ s ≡ m ++ concat ms
    → length m ≤ length q
    → drop (length m) q ++ s ≡ concat ms
whole_rest q s m ms e long =
    sym (drop_prefix (length m) q s long)
    ∙ ap (drop (length m)) e
    ∙ drop-append_at (length m) m (concat ms) refl

cut_nothing : (q s : Bytes) → q ++ s ≡ [] → StreamCut q s []
cut_nothing [] s e = record {
  front = [];
  back = [];
  part = [];
  messages = refl;
  before = refl;
  behind = e;
  not_enough = refl;
  front_wire = tt;
  back_wire = tt;
}
cut_nothing (x ∷ q) s e = absurd (omega (arith, ap length e))

cut_later :
    (q s m : Bytes) (ms : List Message)
    → IsWire m
    → q ++ s ≡ m ++ concat ms
    → length m ≤ length q
    → StreamCut (drop (length m) q) s ms
    → StreamCut q s (m ∷ ms)
cut_later q s m ms h e long c = record {
  front = m ∷ c.front;
  back = c.back;
  part = c.part;
  messages = ap (λ (ns : List Message). m ∷ ns) c.messages;
  before =
      sym (take-append-drop (length m) q)
      ∙ ap₂ (λ (xs ys : Bytes). xs ++ ys) (whole_front q s m ms e long) c.before
      ∙ sym (append_assoc m (concat c.front) c.part);
  behind = c.behind;
  not_enough = c.not_enough;
  front_wire = (h, c.front_wire);
  back_wire = c.back_wire;
}

cut : (ms : List Message) (q s : Bytes) → AllWire ms → q ++ s ≡ concat ms → StreamCut q s ms
cut [] q s hs e = cut_nothing q s e
cut (m ∷ ms) q s (h, hs) e = elim (Bool-cases (leb (length m) (length q))) [
  | inl long ↦
      cut_later q s m ms h e (leb→le (length m) (length q) long) (
        cut ms (drop (length m) q) s hs (whole_rest q s m ms e (leb→le (length m) (length q) long)))
  | inr short ↦ record {
    front = [];
    back = m ∷ ms;
    part = q;
    messages = refl;
    before = refl;
    behind = e;
    not_enough = enough_short q s m (concat ms) h e (ground arith);
    front_wire = tt;
    back_wire = (h, hs);
  }
]

-- As many rounds as bytes, and one, are enough: a message has at least one byte.
length-concat : (ms : List Message) → AllWire ms → length ms ≤ length (concat ms)
length-concat [] hs = omega arith
length-concat (m ∷ ms) (h, hs) =
    omega (arith, length-concat ms hs, length-append m (concat ms), wire_long m h)

module _ (S : Buffer) (lawful : IsLawful S) where
  -- One chunk, of which the messages that it completes are read.
  on_message-cut :
      (b : S.State) (q s : Bytes) (ms : List Message) (c : StreamCut q s ms)
      → S.peek b ≡ q
      → (left : S.State) × (server_on_message S (suc (S.readable_bytes b)) b ≡ some (c.front, left))
        × (S.peek left ≡ c.part)
  on_message-cut b q s ms c e =
      let (left, ran, rest) =
        client-concat S lawful c.front (suc (suc (S.readable_bytes b))) b c.part c.front_wire
          (e ∙ c.before) c.not_enough
          (omega (
            arith,
            length-concat c.front c.front_wire,
            lawful.readable-peek b,
            ap length (e ∙ c.before),
            length-append (concat c.front) c.part,
          )) in
      (left, server_on_message-client S (suc (S.readable_bytes b)) b ∙ ran, rest)

  feed-rest :
      (chunks : List Bytes) (ms : List Message) (b : S.State) (p : Bytes)
      → AllWire ms
      → S.peek b ≡ p
      → enough p ≡ false
      → p ++ concat chunks ≡ concat ms
      → (left : S.State) × (feed S chunks b ≡ some (ms, left)) × (S.peek left ≡ [])
  unfolding feed
  feed-rest [] [] b p hs e hp h = (b, refl, e ∙ sym (append-nil p) ∙ h)
  feed-rest [] (m ∷ ms) b p (hm, hs) e hp h =
      let holds : false ≡ true =
        sym hp ∙ ap enough (sym (append-nil p) ∙ h) ∙ enough-wire m (concat ms) hm in
      absurd (ground (arith, holds))
  feed-rest (chunk ∷ chunks) ms b p hs e hp h =
      let filled = S.append b chunk in
      let c = cut ms (p ++ chunk) (concat chunks) hs (append_assoc p chunk (concat chunks) ∙ h) in
      let bytes : S.peek filled ≡ p ++ chunk =
        lawful.peek-append b chunk ∙ ap (λ (bs : Bytes). bs ++ chunk) e in
      let (left, ran, rest) = on_message-cut filled (p ++ chunk) (concat chunks) ms c bytes in
      let (last, fed, done) =
        feed-rest chunks c.back left c.part c.back_wire rest c.not_enough c.behind in
      (last, rw (ran, fed) (ap (λ (ns : List Message). some (ns, last)) (sym c.messages)), done)

  -- Whatever the chunks in which the bytes of whole messages arrive, the server reads these messages,
  -- in their order, and leaves nothing in the buffer.
  pub feed-concat :
      (chunks : List Bytes) (ms : List Message) (b : S.State)
      → AllWire ms
      → S.peek b ≡ []
      → concat chunks ≡ concat ms
      → (left : S.State) × (feed S chunks b ≡ some (ms, left)) × (S.peek left ≡ [])
  feed-concat chunks ms b hs e h = feed-rest chunks ms b [] hs e refl h
