-- ===== src/LoopArray/Append.antt =====
-- `LoopArray::Append` of commonsrc/include/containers_define.h and its loop.
use mathlib.Core.List.{append-nil, append_assoc}
use qclib.Base.{
  ℕ, zero, suc, ◌+◌, ◌-◌, ◌≤◌, ◌<◌, ◌≡◌, refl, ap, ◌∙◌, arith, length, min, true, false, not, ◌&&◌,
  [], ◌∷◌, ◌++◌, Bool-cases, inl, inr, some, take, drop, take-append-drop, length-append,
  length-take,
}
use qclib.LoopArray.{LoopArray, is_full, is_empty, pop_front, push_back, append_loop, append}
use qclib.LoopArray.Inv.{IsValid, push_back-IsValid, pop_front-IsValid}
use qclib.LoopArray.Refine.{
  contents, length-contents, capacity-push_back, size-push_back, size-pop_front, contents-push_back,
  contents-pop_front,
}

module _ {A : Type 0} (null : A) where
  -- What a run of the loop leaves in the two arrays.
  pub record Moved (a b a' b' : LoopArray A) : Type 0 where
    pub front :
        contents null a'
        ≡ contents null a ++ take (min (a.capacity - a.size) b.size) (contents null b)
    pub rest : contents null b' ≡ drop (min (a.capacity - a.size) b.size) (contents null b)
    pub left : IsValid a'
    pub right : IsValid b'
    pub same : a'.capacity ≡ a.capacity

  -- One round: the oldest element of `b` goes to the end of `a`.
  abbrev Round : LoopArray A → LoopArray A → Type 0
  Round a b =
      let (x, b') = pop_front null b in
      let (_, a') = push_back a x in
      IsValid a'
      × IsValid b'
      × (a'.capacity ≡ a.capacity)
      × ((push_back a x).0 ≡ true)
      × (a'.size ≡ a.size + 1)
      × (b'.size + 1 ≡ b.size)
      × (contents null b ≡ x ∷ contents null b')
      × (contents null a' ≡ contents null a ++ x ∷ [])

  round_lem :
      {a b : LoopArray A} → IsValid a → IsValid b → a.size < a.capacity → 0 < b.size → Round a b
  round_lem {a} {b} v w h k = (
    push_back-IsValid (pop_front null b).0 v,
    pop_front-IsValid null w,
    capacity-push_back a (pop_front null b).0,
    (size-push_back (pop_front null b).0 v h).0,
    (size-push_back (pop_front null b).0 v h).1,
    size-pop_front null b k,
    contents-pop_front null w k,
    contents-push_back null (pop_front null b).0 v h,
  )

  -- One round, then the rest of the run.
  Moved-round :
      {a b a' b' c d : LoopArray A} {x : A}
      → (a'.capacity ≡ a.capacity)
      → (a'.size ≡ a.size + 1)
      → (b'.size + 1 ≡ b.size)
      → a.size < a.capacity
      → (contents null b ≡ x ∷ contents null b')
      → (contents null a' ≡ contents null a ++ x ∷ [])
      → Moved a' b' c d
      → Moved a b c d
  Moved-round {a} {b} {a'} {b'} {c} {d} {x} cap_eq up down room eb ea m = record {
    front = rw (k, eb, m.front, ea, append_assoc) refl;
    rest = rw (k, eb) m.rest;
    left = m.left;
    right = m.right;
    same = m.same ∙ cap_eq;
  }
    where
      k : min (a.capacity - a.size) b.size ≡ suc (min (a'.capacity - a'.size) b'.size)
      k = omega arith

  Moved-none :
      {a b : LoopArray A}
      → IsValid a
      → IsValid b
      → min (a.capacity - a.size) b.size ≡ 0
      → Moved a b a b
  Moved-none v w k = record {
    front = rw (k, append-nil);
    rest = rw k;
    left = v;
    right = w;
    same = refl;
  }

  -- The last round.
  Moved-last :
      {a b a' b' : LoopArray A} {x : A}
      → IsValid a'
      → IsValid b'
      → (a'.capacity ≡ a.capacity)
      → (a'.size ≡ a.size + 1)
      → (b'.size + 1 ≡ b.size)
      → a.size < a.capacity
      → (contents null b ≡ x ∷ contents null b')
      → (contents null a' ≡ contents null a ++ x ∷ [])
      → not (is_full a') && not (is_empty b') ≡ false
      → Moved a b a' b'
  Moved-last {a} {b} {a'} {b'} v w cap_eq up down room eb ea stop = record {
    front = rw (k, eb) ea;
    rest = rw (k, eb) refl;
    left = v;
    right = w;
    same = cap_eq;
  }
    where
      k : min (a.capacity - a.size) b.size ≡ 1
      k = ground arith

  more :
      (a b : LoopArray A)
      → not (is_full a) && not (is_empty b) ≡ true
      → (a.size < a.capacity) × (0 < b.size)
  more a b e = ground arith

  append_loop_lem :
      (rounds : ℕ) {a b : LoopArray A}
      → IsValid a
      → IsValid b
      → a.size < a.capacity
      → 0 < b.size
      → b.size ≤ rounds
      → (a' : LoopArray A) × (b' : LoopArray A) × (append_loop null rounds a b ≡ some (a', b'))
        × Moved a b a' b'
  unfolding append_loop
  append_loop_lem zero v w h k m = absurd (omega arith)
  append_loop_lem (suc rounds) {a} {b} v w h k m =
      let (v', w', c, _, up, down, eb, ea) = round_lem v w h k in
      let a1 = (push_back a (pop_front null b).0).1 in
      let b1 = (pop_front null b).1 in
      elim (Bool-cases (not (is_full a1) && not (is_empty b1))) [
        | inl e ↦
            let (room, left) = more a1 b1 e in
            let (a', b', r, n) = append_loop_lem rounds v' w' room left (omega arith) in
            (a', b', rw e r, Moved-round c up down h eb ea n)
        | inr e ↦ (a1, b1, rw e, Moved-last v' w' c up down h eb ea e)
      ]

  -- Moving keeps the elements and their order over the two arrays.
  pub Moved-all :
      {a b a' b' : LoopArray A}
      → Moved a b a' b'
      → contents null a' ++ contents null b' ≡ contents null a ++ contents null b
  Moved-all {a} {b} m =
      rw (m.front, m.rest, append_assoc, take-append-drop (min (a.capacity - a.size) b.size))

  pub size-Moved :
      {a b a' b' : LoopArray A}
      → Moved a b a' b'
      → a'.size ≡ a.size + min (a.capacity - a.size) b.size
  size-Moved {a} {b} {a'} {b'} m = omega (
    arith,
    ap length m.front,
    length-append {0} (contents null a) (take (min (a.capacity - a.size) b.size) (contents null b)),
    length-take {0} (min (a.capacity - a.size) b.size) (contents null b),
    length-contents null a,
    length-contents null a',
    length-contents null b,
  )

  -- `Append` always returns. It reports success exactly when the receiver has room and the argument
  -- is not empty; it then moves the oldest elements of the argument, in order and as many as fit,
  -- to the end of the receiver, and keeps both arrays valid. Otherwise nothing moves.
  pub append_lem :
      {a b : LoopArray A}
      → IsValid a
      → IsValid b
      → (a' : LoopArray A) × (b' : LoopArray A) × (append null a b
          ≡ some (not (is_full a) && not (is_empty b), a', b'))
        × Moved a b a' b'
  unfolding append
  append_lem {a} {b} v w = elim (Bool-cases (is_full a)) [
    | inl e ↦ (a, b, rw e, Moved-none v w (ground arith))
    | inr e ↦ elim (Bool-cases (is_empty b)) [
      | inl e' ↦ (a, b, rw (e, e'), Moved-none v w (ground arith))
      | inr e' ↦
          let (a', b', r, n) =
            append_loop_lem b.size v w (ground arith) (ground arith) (omega arith) in
          (a', b', rw (e, e', r), n)
    ]
  ]
