-- ===== src/Packets/Built.antt =====
-- commonsrc/include/base_define.h: the blocks that `push_back`, `SetMessage` and the messages between
-- servers build, beside the layout that the head of the file draws.
use qclib.Base.{
  ℕ, zero, suc, ◌+◌, ◌-◌, ◌*◌, ◌/◌, ◌%◌, ◌^◌, ◌≤◌, ◌<◌, ◌≡◌, refl, sym, ap, ◌∙◌, arith, true, List,
  [], ◌∷◌, ◌++◌, none, some, leb, length, take, drop, replicate, ◌>>=◌, length-append,
  length-replicate, length-take, take-append-drop, if◌then◌else◌, false, Bool-cases, inl, inr,
}
use qclib.Packets.{
  Bytes, Message, max_buff_size, get_le, le, write, push_back, set_message, packet_size, round_num,
  zeroed, set_whole_cmd, cmdheader_size, cmdtype_size,
}
use qclib.Packets.Memory.{length-le, get_le-le_append, write-parts}
use mathlib.Core.List.{append_assoc}
use native.Mathlib.Nat.{mod-eq_of_lt}

-- A block with a header, the bytes `body`, and what lies behind them.
abbrev pub packet : ℕ → Bytes → Bytes → Message
packet cmd body rest = le 4 (length body) ++ (le 4 0 ++ (le 2 cmd ++ (body ++ rest)))

-- The bytes that fill a message up to a multiple of eight.
abbrev pub padding : ℕ → ℕ
padding len = (len + 17) / 8 * 8 - (len + 10)

-- A whole message as it goes over the wire.
abbrev pub frame : ℕ → Bytes → Message
frame cmd body = packet cmd body (replicate (padding (length body)) 0)

pub packet_size-rounds : (w n : ℕ) → n + 17 < 2 ^ w → packet_size w n ≡ n + 10 + padding n
unfolding packet_size round_num
packet_size-rounds w n h =
    let small : (cmdheader_size + cmdtype_size + n + 7) % 2 ^ w ≡ n + 17 =
      mod-eq_of_lt (omega arith) ∙ omega arith in
    rw small (omega arith)

pub length-packet :
    (cmd : ℕ) (body rest : Bytes) → length (packet cmd body rest) ≡ 10 + length body + length rest
unfolding le
length-packet cmd body rest = omega (arith, length-append body rest)

pub length-frame :
    (cmd : ℕ) (body : Bytes) → length (frame cmd body) ≡ length body + 10 + padding (length body)
length-frame cmd body =
    length-packet cmd body (replicate (padding (length body)) 0)
    ∙ omega (arith, length-replicate {A = ℕ} (padding (length body)) 0)

module _ {ℓ} {A : Type ℓ} where
  pub replicate-append :
      (m n k : ℕ) (a : A) → k ≡ m + n → replicate k a ≡ replicate m a ++ replicate n a
  replicate-append zero n k a h = ap (λ (i : ℕ). replicate i a) (omega arith)
  replicate-append (suc m) n zero a h = absurd (omega arith)
  replicate-append (suc m) n (suc k) a h =
      ap (λ (xs : List A). a ∷ xs) (replicate-append m n k a (omega arith))

-- `push_back` puts the bytes behind those that are there, in the place of `old`.
pub push_back-parts :
    (n : ℕ) (u body old rest content : Bytes) (len : ℕ)
    → n ≡ length body
    → length u ≡ 6
    → n + len < 2 ^ 32
    → length old ≡ len
    → len ≤ length content
    → push_back (le 4 n ++ (u ++ (body ++ (old ++ rest)))) content len
      ≡ some (le 4 (n + len) ++ (u ++ (body ++ (take len content ++ rest))))
unfolding push_back
push_back-parts n u body old rest content len hn hu fits ho hc =
    let enough : leb len (length content) ≡ true = ground arith in
    let read : get_le 4 (le 4 n ++ (u ++ (body ++ (old ++ rest)))) ≡ n =
      get_le-le_append 4 n (u ++ (body ++ (old ++ rest))) (omega arith) in
    let wraps : (n + len) % 2 ^ 32 ≡ n + len = omega arith in
    let taken : length (take len content) ≡ length old = omega (arith, length-take len content) in
    let copied : write (10 + n) (take len content) (le 4 n ++ (u ++ (body ++ (old ++ rest))))
        ≡ some (le 4 n ++ (u ++ (body ++ (take len content ++ rest)))) =
      simp append_assoc at (
        write-parts (10 + n) (le 4 n ++ (u ++ body)) old (take len content) rest
          (omega (arith, length-append (le 4 n) (u ++ body), length-append u body, length-le 4 n))
          taken) in
    let sized : write 0 (le 4 (n + len)) (le 4 n ++ (u ++ (body ++ (take len content ++ rest))))
        ≡ some (le 4 (n + len) ++ (u ++ (body ++ (take len content ++ rest)))) =
      write-parts 0 [] (le 4 n) (le 4 (n + len)) _ refl
        (length-le 4 (n + len) ∙ sym (length-le 4 n)) in
    rw (enough, read, wraps, copied) sized

zeroed-block :
    (size : ℕ) (buffer : Bytes)
    → size ≤ length buffer
    → zeroed size buffer ≡ some (replicate size 0 ++ drop size buffer)
zeroed-block size buffer h = rw (take-append-drop size buffer) at (
    write-parts 0 [] (take size buffer) (replicate size 0) (drop size buffer) refl
      (omega (arith, length-replicate {A = ℕ} size 0, length-take size buffer)))

zeroed_outside : (size : ℕ) (buffer : Bytes) → length buffer < size → zeroed size buffer ≡ none
unfolding write
zeroed_outside size buffer h = ground (arith, length-replicate {A = ℕ} size 0)

-- A cleared block is an empty message with room for `k` bytes and `m` more.
blank-packet :
    (k m size : ℕ) (rest : Bytes)
    → size ≡ 10 + k + m
    → replicate size 0 ++ rest ≡ packet 0 [] (replicate k 0 ++ (replicate m 0 ++ rest))
unfolding le
blank-packet k m size rest h =
    ap (λ (xs : Bytes). xs ++ rest)
      (replicate-append 10 (k + m) size 0 (omega arith)
        ∙ ap (λ (xs : Bytes). replicate 10 0 ++ xs) (replicate-append k m (k + m) 0 refl))
    ∙ simp append_assoc refl

pub set_whole_cmd-packet :
    (cmd : ℕ) (rest : Bytes) → set_whole_cmd cmd (packet 0 [] rest) ≡ some (packet cmd [] rest)
set_whole_cmd-packet cmd rest = simp append_assoc at (
    write-parts 8 (le 4 0 ++ le 4 0) (le 2 0) (le 2 cmd) rest
      (omega (arith, length-append (le 4 0) (le 4 0), length-le 4 0))
      (length-le 2 cmd ∙ sym (length-le 2 0)))

pub push_back-packet :
    (cmd : ℕ) (body old rest content : Bytes) (len : ℕ)
    → length body + len < 2 ^ 32
    → length old ≡ len
    → len ≤ length content
    → push_back (packet cmd body (old ++ rest)) content len
      ≡ some (packet cmd (body ++ take len content) rest)
push_back-packet cmd body old rest content len fits ho hc =
    simp append_assoc at (
      push_back-parts (length body) (le 4 0 ++ le 2 cmd) body old rest content len refl
        (omega (arith, length-append (le 4 0) (le 2 cmd), length-le 4 0, length-le 2 cmd)) fits ho
        hc)
    ∙ ap
        (λ (n : ℕ). some (le 4 n ++ (le 4 0 ++ (le 2 cmd ++ (body ++ (take len content ++ rest))))))
        longer
    ∙ simp append_assoc refl
  where
    longer : length body + len ≡ length (body ++ take len content)
    longer = omega (arith, length-append body (take len content), length-take len content)

pub cleared-packet :
    (k size : ℕ) (buffer : Bytes)
    → size ≤ length buffer
    → 10 + k ≤ size
    → zeroed size buffer
      ≡ some (packet 0 [] (replicate k 0 ++ (replicate (size - (10 + k)) 0 ++ drop size buffer)))
cleared-packet k size buffer h hk =
    zeroed-block size buffer h
    ∙ ap some (blank-packet k (size - (10 + k)) size (drop size buffer) (omega arith))

-- A cleared and titled block, with room for `k` bytes.
pub titled-packet :
    (cmd k size : ℕ) (buffer : Bytes)
    → size ≤ length buffer
    → 10 + k ≤ size
    → (zeroed size buffer >>= set_whole_cmd cmd)
      ≡ some (packet cmd [] (replicate k 0 ++ (replicate (size - (10 + k)) 0 ++ drop size buffer)))
titled-packet cmd k size buffer h hk = rw (cleared-packet k size buffer h hk) (
    set_whole_cmd-packet cmd (replicate k 0 ++ (replicate (size - (10 + k)) 0 ++ drop size buffer)))

-- Room that is left behind a body and fills the message is its padding.
pub packet-frame :
    (cmd m : ℕ) (body rest : Bytes)
    → m ≡ padding (length body)
    → packet cmd body (replicate m 0 ++ rest) ≡ frame cmd body ++ rest
packet-frame cmd m body rest h =
    ap (λ (k : ℕ). packet cmd body (replicate k 0 ++ rest)) h ∙ simp append_assoc refl

-- What `SetMessage` leaves in the thread's buffer, for a body that it has room for and for a longer
-- one, where `memset` runs over the end of the buffer.
pub set_message-frame :
    (buffer content : Bytes) (cmd len : ℕ)
    → length buffer ≡ max_buff_size
    → len ≤ length content
    → len + 17 < 2 ^ 64
    → set_message buffer cmd content len ≡ (
        if leb len 65518
        then some (frame cmd (take len content) ++ drop (len + 10 + padding len) buffer)
        else none)
unfolding set_message
set_message-frame buffer content cmd len hb hc fits =
    let size : packet_size 64 len ≡ len + 10 + padding len = packet_size-rounds 64 len fits in
    elim (Bool-cases (leb len 65518)) [
      | inl e ↦ rw (size, e) (rw (titled e) (pushed e))
      | inr e ↦ rw (size, e, zeroed_outside (len + 10 + padding len) buffer (late e)) refl
    ]
  where
    late : leb len 65518 ≡ false → length buffer < len + 10 + padding len
    late e = ground arith

    room : ℕ
    room = len + 10 + padding len - (10 + len)

    behind : Bytes
    behind = drop (len + 10 + padding len) buffer

    titled :
        leb len 65518 ≡ true
        → (zeroed (len + 10 + padding len) buffer >>= set_whole_cmd cmd)
          ≡ some (packet cmd [] (replicate len 0 ++ (replicate room 0 ++ behind)))
    titled e = titled-packet cmd len (len + 10 + padding len) buffer (ground arith) (omega arith)

    pushed :
        leb len 65518 ≡ true
        → push_back (packet cmd [] (replicate len 0 ++ (replicate room 0 ++ behind))) content len
          ≡ some (frame cmd (take len content) ++ behind)
    pushed e =
        push_back-packet cmd [] (replicate len 0) (replicate room 0 ++ behind) content len
          (ground arith) (length-replicate len 0) hc
        ∙ ap some (
            packet-frame cmd room (take len content) behind
              (omega (arith, length-take len content)))
