-- ===== src/Log/Written.antt =====
-- commonsrc/src/file_writer.cpp: nothing that was logged is lost, repeated or reordered while the kernel
-- takes bytes.
use qclib.Base.{
  ℕ, zero, suc, ◌+◌, ◌-◌, ◌%◌, ◌^◌, ◌≤◌, ◌<◌, ◌≡◌, refl, sym, ap, ◌∙◌, arith, true, List, [], ◌∷◌,
  ◌++◌, some, ◌==◌, min, length, take, drop, length-append, Bool-cases, inl, inr, leb,
}
use qclib.Log.{
  Text, Fd, Answer, took, failed, FileWriter, Writing, asked, write_round, write_loop, c_str,
  write_file,
}
use qclib.Packets.Memory.{take-append, drop-drop}
use mathlib.Core.List.{append_assoc, append-nil}

-- Each call of `write` takes one byte at least.
abbrev pub Takes : List Answer → Type 0
Takes [] = Unit {0}
Takes (took n ∷ more) = (0 < n) × Takes more
Takes (failed ∷ more) = ⊥

take-nil : (n : ℕ) → take {A = ℕ} n [] ≡ []
take-nil zero = refl
take-nil (suc n) = refl

-- Two steps of taking are one.
take-add : (m n : ℕ) (xs : Text) → take m xs ++ take n (drop m xs) ≡ take (m + n) xs
take-add zero n xs = ground arith
take-add (suc m) n [] = take-nil n ∙ sym (take-nil (suc m + n))
take-add (suc m) n (x ∷ xs) =
    let e : suc m + n ≡ suc (m + n) = omega arith in
    rw e (ap (λ (r : Text). x ∷ r) (take-add m n xs))

-- One call of `write` that takes bytes, while some are left.
round_took :
    (s : Text) (n : ℕ) (v : Writing)
    → 0 < n
    → 0 < v.dsize
    → v.pos + v.dsize ≡ length s
    → length s < 2 ^ 64
    → (k : ℕ) × (0 < k)
      × (k ≤ v.dsize)
      × (write_round (c_str s) (took n) v
          ≡ some (record {
            dsize = v.dsize - k;
            pos = v.pos + k;
            taken = v.taken ++ take k (drop v.pos (c_str s));
          }))
unfolding write_round
round_took s n v h d e b =
    let k : ℕ = min n (asked v.dsize) in (k, positive, bounded, rw (inside, place) refl)
  where
    positive : 0 < min n (asked v.dsize)
    positive = ground arith

    bounded : min n (asked v.dsize) ≤ v.dsize
    bounded = ground arith

    inside : leb (v.pos + asked v.dsize) (length (c_str s)) ≡ true
    inside = ground (arith, length-append s (0 ∷ []))

    place : (v.pos + min n (asked v.dsize)) % 2 ^ 64 ≡ v.pos + min n (asked v.dsize)
    place = omega (arith, bounded)

-- The loop with honest answers, one for each byte at most: it ends, and what it took is the data.
loop_done :
    (answers : List Answer) (s : Text) (v : Writing)
    → Takes answers
    → v.dsize ≤ length answers
    → v.pos + v.dsize ≡ length s
    → length s < 2 ^ 64
    → (u : Writing) × (write_loop (c_str s) answers v ≡ some u)
      × (u.dsize ≡ 0)
      × (u.taken ≡ v.taken ++ take v.dsize (drop v.pos (c_str s)))
unfolding write_loop
loop_done [] s v t n e b =
    let z : v.dsize ≡ 0 = omega arith in (v, refl, z, rw z (sym (append-nil v.taken)))
loop_done (failed ∷ more) s v t n e b = absurd t
loop_done (took n ∷ more) s v (h, t) d e b = elim (Bool-cases (v.dsize == 0)) [
  | inl z ↦
      let z' : v.dsize ≡ 0 = ground arith in (v, rw z refl, z', rw z' (sym (append-nil v.taken)))
  | inr z ↦
      let (k, positive, bounded, once) = round_took s n v h (ground arith) e b in
      let v' : Writing = record {
        dsize = v.dsize - k;
        pos = v.pos + k;
        taken = v.taken ++ take k (drop v.pos (c_str s));
      } in
      let (u, ran, ended, got) = loop_done more s v' t (omega arith) (omega arith) b in
      (u, rw (z, once) ran, ended, got ∙ joined k bounded)
]
  where
    joined :
        (k : ℕ)
        → k ≤ v.dsize
        → (v.taken ++ take k (drop v.pos (c_str s)))
            ++ take (v.dsize - k) (drop (v.pos + k) (c_str s))
          ≡ v.taken ++ take v.dsize (drop v.pos (c_str s))
    joined k bounded =
        append_assoc v.taken (take k (drop v.pos (c_str s))) _
        ∙ ap (λ (r : Text). v.taken ++ r)
            (ap (λ (r : Text). take k (drop v.pos (c_str s)) ++ take (v.dsize - k) r)
                (sym (drop-drop v.pos k (v.pos + k) (c_str s) refl))
              ∙ take-add k (v.dsize - k) (drop v.pos (c_str s))
              ∙ ap (λ (m : ℕ). take m (drop v.pos (c_str s))) (omega arith))

-- `WriteFile` writes the cache and empties it.
pub write_file-done :
    (answers : List Answer) (w : FileWriter)
    → Takes answers
    → length w.cache ≤ length answers
    → length w.cache < 2 ^ 64
    → write_file answers w
      ≡ some (record w {
        offset = w.offset + length w.cache;
        cache = [];
        output = w.output ++ (w.fd, w.cache) ∷ [];
      })
unfolding write_file
write_file-done answers w t n b =
    let begin : Writing = record { dsize = length w.cache; pos = 0; taken = [] } in
    let (u, ran, ended, got) = loop_done answers w.cache begin t n (omega arith) b in
    let ended' : u.dsize == 0 ≡ true = ground arith in
    rw (ran, ended', got, take-append w.cache (0 ∷ [])) refl

-- The bytes that were written, whatever the file.
unfoldable pub texts : List (Fd × Text) → Text
texts [] = []
texts ((fd, bytes) ∷ out) = bytes ++ texts out

pub texts-append :
    (out : List (Fd × Text)) (fd : Fd) (s : Text) → texts (out ++ (fd, s) ∷ []) ≡ texts out ++ s
unfolding texts
texts-append [] fd s = append-nil s
texts-append ((g, r) ∷ out) fd s =
    ap (λ (x : Text). r ++ x) (texts-append out fd s) ∙ sym (append_assoc r (texts out) s)
