-- ===== src/Log/Failed.antt =====
-- commonsrc/src/file_writer.cpp: what `WriteFile` does when a call of `write` fails.
use qclib.Base.{
  ℕ, zero, suc, ◌+◌, ◌-◌, ◌%◌, ◌^◌, ◌≤◌, ◌<◌, ◌≡◌, refl, ap, ◌∙◌, arith, true, false, List, [], ◌∷◌,
  ◌++◌, none, some, ◌==◌, min, length, take, drop, length-append, leb,
}
use qclib.Log.{
  Text, Answer, took, failed, FileWriter, Writing, asked, write_round, write_loop, c_str,
  write_file,
}

take-append : (n : ℕ) (xs ys : Text) → n ≤ length xs → take n (xs ++ ys) ≡ take n xs
take-append zero xs ys h = refl
take-append (suc n) [] ys h = absurd (omega arith)
take-append (suc n) (x ∷ xs) ys h = ap (λ (r : Text). x ∷ r) (take-append n xs ys (omega arith))

take_rest :
    (n : ℕ) (xs ys : Text) → n ≤ length xs → take (length xs - n) (drop n (xs ++ ys)) ≡ drop n xs
take_rest zero [] ys h = refl
take_rest zero (x ∷ xs) ys h =
    let e : suc (length xs) - 0 ≡ suc (length xs) = omega arith in
    rw e (
      ap (λ (r : Text). x ∷ r)
        (ap (λ (m : ℕ). take m (xs ++ ys)) (omega arith) ∙ take_rest zero xs ys (omega arith)))
take_rest (suc n) [] ys h = absurd (omega arith)
take_rest (suc n) (x ∷ xs) ys h =
    let e : suc (length xs) - suc n ≡ length xs - n = omega arith in
    rw e (take_rest n xs ys (omega arith))

module _ (s : Text) (k : ℕ) (some_taken : 0 < k) (some_left : k < length s)
    (one_call : length s ≤ 4096) where
  first_call :
      write_round (c_str s) (took k) (record { dsize = length s; pos = 0; taken = [] })
      ≡ some (record { dsize = length s - k; pos = k; taken = take k s })
  unfolding write_round
  first_call =
      let inside : leb (0 + asked (length s)) (length (c_str s)) ≡ true =
        ground (arith, length-append s (0 ∷ [])) in
      let all : min k (asked (length s)) ≡ k = ground arith in
      let place : (0 + k) % 2 ^ 64 ≡ k = omega arith in
      rw (inside, all, place, take-append k s (0 ∷ []) (omega arith)) refl

  failing_call :
      write_round (c_str s) failed (record { dsize = length s - k; pos = k; taken = take k s })
      ≡ some (record { dsize = length s - (k - 1); pos = k - 1; taken = take k s })
  unfolding write_round
  failing_call =
      let inside : leb (k + asked (length s - k)) (length (c_str s)) ≡ true =
        ground (arith, length-append s (0 ∷ [])) in
      let place : (k + (2 ^ 64 - 1)) % 2 ^ 64 ≡ k - 1 = omega arith in
      let more : length s - k + 1 ≡ length s - (k - 1) = omega arith in
      rw (inside, place, more) refl

  last_call :
      write_round
        (c_str s)
        (took (length s))
        (record { dsize = length s - (k - 1); pos = k - 1; taken = take k s })
      ≡ some (record { dsize = 0; pos = length s; taken = take k s ++ drop (k - 1) s })
  unfolding write_round
  last_call =
      let inside : leb (k - 1 + asked (length s - (k - 1))) (length (c_str s)) ≡ true =
        ground (arith, length-append s (0 ∷ [])) in
      let all : min (length s) (asked (length s - (k - 1))) ≡ length s - (k - 1) = ground arith in
      let place : (k - 1 + (length s - (k - 1))) % 2 ^ 64 ≡ length s = omega arith in
      let none_left : length s - (k - 1) - (length s - (k - 1)) ≡ 0 = omega arith in
      rw (inside, all, place, none_left, take_rest (k - 1) s (0 ∷ []) (omega arith)) refl

-- A call of `write` that fails makes `WriteFile` write a byte twice: if the first call took the first
-- `k` bytes of a cache of at most one call's size, but not all, and the second fails, then what comes
-- after them starts with the last of these bytes again, and the size of the file is counted as if it
-- had been written once.
pub write_file-twice :
    (w : FileWriter) (k : ℕ)
    → 0 < k
    → k < length w.cache
    → length w.cache ≤ 4096
    → write_file (took k ∷ failed ∷ took (length w.cache) ∷ []) w
      ≡ some (record w {
        offset = w.offset + length w.cache;
        cache = [];
        output = w.output ++ (w.fd, take k w.cache ++ drop (k - 1) w.cache) ∷ [];
      })
unfolding write_file write_loop
write_file-twice w k some_taken some_left one_call =
    let s = w.cache in
    let begun : length s == 0 ≡ false = ground arith in
    let left : length s - k == 0 ≡ false = ground arith in
    let again : length s - (k - 1) == 0 ≡ false = ground arith in
    rw
      (
        begun,
        first_call s k some_taken some_left one_call,
        left,
        failing_call s k some_taken some_left one_call,
        again,
        last_call s k some_taken some_left one_call,
      )
      refl

round_beyond :
    (block : Text) (a : Answer) (v : Writing)
    → leb (v.pos + asked v.dsize) (length block) ≡ false
    → write_round block a v ≡ none
unfolding write_round
round_beyond block (took n) v h = rw h refl
round_beyond block failed v h = rw h refl

-- If the first call fails, the next one is given a block before the cache.
pub write_file-beyond :
    (w : FileWriter) (a : Answer) (more : List Answer)
    → 0 < length w.cache
    → length w.cache < 2 ^ 63
    → write_file (failed ∷ a ∷ more) w ≡ none
unfolding write_file write_loop write_round
write_file-beyond w a more h b =
    let s = w.cache in
    let size = length-append s (0 ∷ []) in
    let begun : length s == 0 ≡ false = ground arith in
    let v : Writing = record { dsize = length s + 1; pos = 2 ^ 64 - 1; taken = [] } in
    let inside : leb (0 + asked (length s)) (length (c_str s)) ≡ true = ground (arith, size) in
    let again : length s + 1 == 0 ≡ false = ground arith in
    let outside : leb (v.pos + asked v.dsize) (length (c_str s)) ≡ false = ground (arith, size) in
    rw (begun, inside, again, round_beyond (c_str s) a v outside) refl
