-- ===== src/ObjectSet/Laws.antt =====
-- The set operations of projects/logic_svr/tower.h seen through membership and order.
use qclib.Base.{ℕ, ◌≤◌, ◌<◌, ◌≡◌, refl, arith, false, not, ◌&&◌, ◌||◌, [], ◌∷◌, ◌==◌}
use qclib.ObjectSet.{ObjectSet, contains, insert, insert_all, erase}

-- Strictly ascending, all above a bound.
abbrev pub Above : ℕ → ObjectSet → Type 0
Above n [] = Unit {0}
Above n (x ∷ xs) = (n < x) × Above x xs

abbrev pub IsSorted : ObjectSet → Type 0
IsSorted [] = Unit {0}
IsSorted (x ∷ xs) = Above x xs

pub contains-insert : (j k : ℕ) (s : ObjectSet) → contains j (insert k s) ≡ k == j || contains j s
unfolding contains insert
contains-insert j k [] = refl
contains-insert j k (x ∷ xs) = ground (arith, contains-insert j k xs)

pub contains-insert_all :
    (j : ℕ) (s xs : ObjectSet) → contains j (insert_all s xs) ≡ contains j s || contains j xs
unfolding contains insert_all
contains-insert_all j s [] = ground arith
contains-insert_all j s (x ∷ xs) =
    ground (arith, contains-insert_all j (insert x s) xs, contains-insert j x s)

pub contains-erase :
    (j k : ℕ) (s : ObjectSet) → contains j (erase k s) ≡ not (k == j) && contains j s
unfolding contains erase
contains-erase j k [] = ground arith
contains-erase j k (x ∷ xs) = ground (arith, contains-erase j k xs)

pub Above-le : (m n : ℕ) (s : ObjectSet) → m ≤ n → Above n s → Above m s
Above-le m n [] h a = tt
Above-le m n (x ∷ xs) h a = (omega arith, a.1)

-- What lies at or below the bound is no element.
pub contains-Above : (n k : ℕ) (s : ObjectSet) → k ≤ n → Above n s → contains k s ≡ false
unfolding contains
contains-Above n k [] h a = refl
contains-Above n k (x ∷ xs) h a = ground (arith, contains-Above x k xs)

insert-Above : (n k : ℕ) (s : ObjectSet) → n < k → Above n s → Above n (insert k s)
unfolding insert
insert-Above n k [] h a = (h, tt)
insert-Above n k (x ∷ xs) h a = ground (arith, insert-Above x k xs)

pub insert-IsSorted : (k : ℕ) (s : ObjectSet) → IsSorted s → IsSorted (insert k s)
unfolding insert
insert-IsSorted k [] h = tt
insert-IsSorted k (x ∷ xs) h = ground (arith, insert-Above x k xs)

pub insert_all-IsSorted : (s xs : ObjectSet) → IsSorted s → IsSorted (insert_all s xs)
unfolding insert_all
insert_all-IsSorted s [] h = h
insert_all-IsSorted s (x ∷ xs) h = insert_all-IsSorted (insert x s) xs (insert-IsSorted x s h)

erase-Above : (n k : ℕ) (s : ObjectSet) → Above n s → Above n (erase k s)
unfolding erase
erase-Above n k [] a = tt
erase-Above n k (x ∷ xs) a = ground (arith, erase-Above x k xs, Above-le n x (erase k xs))

pub Above-IsSorted : (n : ℕ) (s : ObjectSet) → Above n s → IsSorted s
Above-IsSorted n [] a = tt
Above-IsSorted n (x ∷ xs) a = a.1

pub erase-IsSorted : (k : ℕ) (s : ObjectSet) → IsSorted s → IsSorted (erase k s)
unfolding erase
erase-IsSorted k [] h = tt
erase-IsSorted k (x ∷ xs) h = ground (arith, erase-Above x k xs h, Above-IsSorted x (erase k xs))
