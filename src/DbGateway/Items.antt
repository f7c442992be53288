-- ===== src/DbGateway/Items.antt =====
-- projects/dbgateway/db_gateway.cpp: `GetBindItems` on names joined by a separator of one byte.
use qclib.Base.{
  ℕ, zero, suc, ◌<◌, ◌≡◌, refl, arith, true, false, List, [], ◌∷◌, ◌++◌, none, some, ◌==◌, length,
  length-append,
}
use qclib.Names.{Name, Dict, assign}
use qclib.DbGateway.{strstr, bind_loop, get_bind_items}

-- A name that has not the byte.
abbrev pub Lacks : ℕ → Name → Type 0
Lacks c [] = Unit {0}
Lacks c (d ∷ ds) = ((c == d) ≡ false) × Lacks c ds

abbrev pub LackAll : ℕ → List Name → Type 0
LackAll c [] = Unit {0}
LackAll c (n ∷ ns) = Lacks c n × LackAll c ns

-- Names, each with the separator behind it, and a last one.
unfoldable pub joined : ℕ → List Name → Name → Name
joined c [] last = last
joined c (n ∷ ns) last = n ++ (c ∷ joined c ns last)

unfoldable pub add_all : List Name → Dict (Unit {0}) → Dict (Unit {0})
add_all [] items = items
add_all (n ∷ ns) items = add_all ns (assign n tt items)

pub strstr-joined :
    (c : ℕ) (n rest : Name) → Lacks c n → strstr (n ++ (c ∷ rest)) (c ∷ []) ≡ some (n, c ∷ rest)
unfolding strstr
strstr-joined c [] rest h = let same : (c == c) ≡ true = ground arith in rw same refl
strstr-joined c (d ∷ ds) rest (other, h) = rw (other, strstr-joined c ds rest h) refl

pub strstr-Lacks : (c : ℕ) (n : Name) → Lacks c n → strstr n (c ∷ []) ≡ none
unfolding strstr
strstr-Lacks c [] h = refl
strstr-Lacks c (d ∷ ds) (other, h) = rw (other, strstr-Lacks c ds h) refl

loop-joined :
    (fuel c : ℕ) (ns : List Name) (d : ℕ) (ds : Name) (items : Dict (Unit {0}))
    → LackAll c ns
    → Lacks c (d ∷ ds)
    → length (joined c ns (d ∷ ds)) < fuel
    → bind_loop fuel (c ∷ []) (joined c ns (d ∷ ds)) items
      ≡ some (assign (d ∷ ds) tt (add_all ns items))
unfolding bind_loop joined add_all
loop-joined zero c ns d ds items h k f = absurd (omega arith)
loop-joined (suc fuel) c [] d ds items h k f = rw (strstr-Lacks c (d ∷ ds) k, bind_loop) refl
loop-joined (suc fuel) c (n ∷ ns) d ds items (h, hs) k f =
    rw (strstr-joined c n (joined c ns (d ∷ ds)) h, bind_loop)
      (loop-joined fuel c ns d ds (assign n tt items) hs k
        (omega (arith, length-append n (c ∷ joined c ns (d ∷ ds)))))

-- GetBindItems ends, and puts exactly the names into the set: for a text that joins names, of which the
-- last is not empty, by a separator of one byte that none of them has, the result is the set with each
-- of the names inserted.
pub get_bind_items-joined :
    (c : ℕ) (ns : List Name) (d : ℕ) (ds : Name) (items : Dict (Unit {0}))
    → LackAll c ns
    → Lacks c (d ∷ ds)
    → get_bind_items items (c ∷ []) (some (joined c ns (d ∷ ds)))
      ≡ some (assign (d ∷ ds) tt (add_all ns items))
unfolding get_bind_items
get_bind_items-joined c ns d ds items h k =
    loop-joined (suc (length (joined c ns (d ∷ ds)))) c ns d ds items h k (omega arith)
