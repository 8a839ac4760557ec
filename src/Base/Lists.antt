-- ===== src/Base/Lists.antt =====
-- Lists measured and indexed by native numbers: vectors, arrays and byte buffers.
use Prim.Native.Nat.{ℕ, zero, suc, ◌+◌, ◌-◌, ◌≤◌, ◌<◌}
use mathlib.Core.Path.{◌≡◌, refl, ap}
use mathlib.Core.List.{List, [], ◌∷◌, ◌++◌}
use mathlib.Core.Option.{Option, none, some}
use native.Mathlib.Omega.{arith}

module _ {ℓ} {A : Type ℓ} where
  abbrev pub length : List A → ℕ
  length [] = 0
  length (x ∷ xs) = suc (length xs)

  abbrev pub get_elem? : List A → ℕ → Option A
  get_elem? [] i = none
  get_elem? (x ∷ xs) zero = some x
  get_elem? (x ∷ xs) (suc i) = get_elem? xs i

  abbrev pub get_or : List A → ℕ → A → A
  get_or [] i d = d
  get_or (x ∷ xs) zero d = x
  get_or (x ∷ xs) (suc i) d = get_or xs i d

  -- A write out of bounds changes nothing.
  abbrev pub set : List A → ℕ → A → List A
  set [] i v = []
  set (x ∷ xs) zero v = v ∷ xs
  set (x ∷ xs) (suc i) v = x ∷ set xs i v

  abbrev pub take : ℕ → List A → List A
  take zero xs = []
  take (suc n) [] = []
  take (suc n) (x ∷ xs) = x ∷ take n xs

  abbrev pub drop : ℕ → List A → List A
  drop zero xs = xs
  drop (suc n) [] = []
  drop (suc n) (x ∷ xs) = drop n xs

  abbrev pub replicate : ℕ → A → List A
  replicate zero a = []
  replicate (suc n) a = a ∷ replicate n a

  abbrev pub All {κ} : (A → Type κ) → List A → Type κ
  All P [] = Unit {κ}
  All P (x ∷ xs) = P x × All P xs

  -- `std::copy` of `src` to the place `off` of `dst`.
  abbrev pub overwrite : List A → ℕ → List A → List A
  overwrite [] off src = []
  overwrite (d ∷ ds) zero [] = d ∷ ds
  overwrite (d ∷ ds) zero (s ∷ ss) = s ∷ overwrite ds zero ss
  overwrite (d ∷ ds) (suc off) src = d ∷ overwrite ds off src

module _ {ℓ} {A : Type ℓ} where
  pub length-append : (xs ys : List A) → length (xs ++ ys) ≡ length xs + length ys
  length-append [] ys = omega arith
  length-append (x ∷ xs) ys = omega (arith, length-append xs ys)

  pub take_all : (n : ℕ) (xs : List A) → length xs ≤ n → take n xs ≡ xs
  take_all zero [] h = refl
  take_all zero (x ∷ xs) h = absurd (omega arith)
  take_all (suc n) [] h = refl
  take_all (suc n) (x ∷ xs) h = ap (◌∷◌ x) (take_all n xs (omega arith))

  pub length-set : (xs : List A) (i : ℕ) (v : A) → length (set xs i v) ≡ length xs
  length-set [] i v = refl
  length-set (x ∷ xs) zero v = refl
  length-set (x ∷ xs) (suc i) v = ap suc (length-set xs i v)

  pub length-replicate : (n : ℕ) (a : A) → length (replicate n a) ≡ n
  length-replicate zero a = refl
  length-replicate (suc n) a = ap suc (length-replicate n a)

  pub get_elem?-set_found :
      (xs : List A) (i : ℕ) (v : A) {x : A}
      → get_elem? xs i ≡ some x
      → get_elem? (set xs i v) i ≡ some v
  get_elem?-set_found [] i v e = cc
  get_elem?-set_found (x ∷ xs) zero v e = refl
  get_elem?-set_found (x ∷ xs) (suc i) v e = get_elem?-set_found xs i v e

  pub set_same : (xs : List A) (i : ℕ) (v : A) → get_elem? xs i ≡ some v → set xs i v ≡ xs
  set_same [] i v e = refl
  set_same (x ∷ xs) zero v e = ap (λ y. y ∷ xs) (ground arith)
  set_same (x ∷ xs) (suc i) v e = ap (◌∷◌ x) (set_same xs i v e)

  pub set-set : (xs : List A) (i : ℕ) (v w : A) → set (set xs i v) i w ≡ set xs i w
  set-set [] i v w = refl
  set-set (x ∷ xs) zero v w = refl
  set-set (x ∷ xs) (suc i) v w = ap (◌∷◌ x) (set-set xs i v w)

  -- What was copied is read back, and a slice before or behind it is as before.
  pub take-drop-overwrite :
      (dst : List A) (off : ℕ) (src : List A)
      → off + length src ≤ length dst
      → take (length src) (drop off (overwrite dst off src)) ≡ src
  take-drop-overwrite [] zero [] h = refl
  take-drop-overwrite [] zero (s ∷ ss) h = absurd (omega arith)
  take-drop-overwrite [] (suc off) src h = absurd (omega arith)
  take-drop-overwrite (d ∷ ds) zero [] h = refl
  take-drop-overwrite (d ∷ ds) zero (s ∷ ss) h =
      ap (◌∷◌ s) (take-drop-overwrite ds zero ss (omega arith))
  take-drop-overwrite (d ∷ ds) (suc off) src h = take-drop-overwrite ds off src (omega arith)

  pub take-drop-overwrite_before :
      (dst : List A) (off : ℕ) (src : List A) (o n : ℕ)
      → o + n ≤ off
      → take n (drop o (overwrite dst off src)) ≡ take n (drop o dst)
  take-drop-overwrite_before [] off src o n h = refl
  take-drop-overwrite_before (d ∷ ds) zero src zero zero h = refl
  take-drop-overwrite_before (d ∷ ds) zero src zero (suc n) h = absurd (omega arith)
  take-drop-overwrite_before (d ∷ ds) zero src (suc o) n h = absurd (omega arith)
  take-drop-overwrite_before (d ∷ ds) (suc off) src zero zero h = refl
  take-drop-overwrite_before (d ∷ ds) (suc off) src zero (suc n) h =
      ap (◌∷◌ d) (take-drop-overwrite_before ds off src zero n (omega arith))
  take-drop-overwrite_before (d ∷ ds) (suc off) src (suc o) n h =
      take-drop-overwrite_before ds off src o n (omega arith)

  pub drop-overwrite_behind :
      (dst : List A) (off : ℕ) (src : List A) (o : ℕ)
      → off + length src ≤ o
      → drop o (overwrite dst off src) ≡ drop o dst
  drop-overwrite_behind [] off src o h = refl
  drop-overwrite_behind (d ∷ ds) zero [] o h = refl
  drop-overwrite_behind (d ∷ ds) zero (s ∷ ss) zero h = absurd (omega arith)
  drop-overwrite_behind (d ∷ ds) zero (s ∷ ss) (suc o) h =
      drop-overwrite_behind ds zero ss o (omega arith)
  drop-overwrite_behind (d ∷ ds) (suc off) src zero h = absurd (omega arith)
  drop-overwrite_behind (d ∷ ds) (suc off) src (suc o) h =
      drop-overwrite_behind ds off src o (omega arith)

module _ {ℓ} {A : Type ℓ} where
  pub length-take : (n : ℕ) (xs : List A) → n ≤ length xs → length (take n xs) ≡ n
  length-take zero xs h = refl
  length-take (suc n) [] h = absurd (omega arith)
  length-take (suc n) (x ∷ xs) h = omega (arith, length-take n xs)

  pub length-drop : (n : ℕ) (xs : List A) → length (drop n xs) ≡ length xs - n
  length-drop zero xs = omega arith
  length-drop (suc n) [] = omega arith
  length-drop (suc n) (x ∷ xs) = omega (arith, length-drop n xs)

  pub take-length : (xs : List A) → take (length xs) xs ≡ xs
  take-length [] = refl
  take-length (x ∷ xs) = ap (◌∷◌ x) (take-length xs)

  pub get_or-take : (n j : ℕ) (xs : List A) (d : A) → j < n → get_or (take n xs) j d ≡ get_or xs j d
  get_or-take zero j xs d h = absurd (omega arith)
  get_or-take (suc n) j [] d h = refl
  get_or-take (suc n) zero (x ∷ xs) d h = refl
  get_or-take (suc n) (suc j) (x ∷ xs) d h = get_or-take n j xs d (omega arith)

  pub get_or-drop :
      (n j k : ℕ) (xs : List A) (d : A) → n + j ≡ k → get_or (drop n xs) j d ≡ get_or xs k d
  get_or-drop zero j k xs d e = let same : j ≡ k = omega arith in rw same
  get_or-drop (suc n) j k [] d e = refl
  get_or-drop (suc n) j zero (x ∷ xs) d e = absurd (omega arith)
  get_or-drop (suc n) j (suc k) (x ∷ xs) d e = get_or-drop n j k xs d (omega arith)

  pub get_or-append_left :
      (xs ys : List A) (j : ℕ) (d : A) → j < length xs → get_or (xs ++ ys) j d ≡ get_or xs j d
  get_or-append_left [] ys j d h = absurd (omega arith)
  get_or-append_left (x ∷ xs) ys zero d h = refl
  get_or-append_left (x ∷ xs) ys (suc j) d h = get_or-append_left xs ys j d (omega arith)

  pub get_or-append_right :
      (xs ys : List A) (j k : ℕ) (d : A) → length xs + j ≡ k → get_or (xs ++ ys) k d ≡ get_or ys j d
  get_or-append_right [] ys j k d e = let same : k ≡ j = omega arith in rw same
  get_or-append_right (x ∷ xs) ys j zero d e = absurd (omega arith)
  get_or-append_right (x ∷ xs) ys j (suc k) d e = get_or-append_right xs ys j k d (omega arith)

  module _ {κ} (P : A → Type κ) where
    pub All-append : (xs ys : List A) → All P xs → All P ys → All P (xs ++ ys)
    All-append [] ys h g = g
    All-append (x ∷ xs) ys h g = (h.0, All-append xs ys h.1 g)

    pub All-take : (n : ℕ) (xs : List A) → All P xs → All P (take n xs)
    All-take zero xs h = tt
    All-take (suc n) [] h = tt
    All-take (suc n) (x ∷ xs) h = (h.0, All-take n xs h.1)

    pub All-drop : (n : ℕ) (xs : List A) → All P xs → All P (drop n xs)
    All-drop zero xs h = h
    All-drop (suc n) [] h = tt
    All-drop (suc n) (x ∷ xs) h = All-drop n xs h.1
