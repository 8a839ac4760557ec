-- ===== src/Cli/Words/Laws.antt =====
-- `split` takes apart what is put together with the delimiter, and `is_prefix` against concatenation.
use sdb_building_a_debugger.Base.{
  ℕ, zero, suc, ◌<◌, ◌≡◌, ◌≢◌, ◌↔◌, refl, sym, ap, subst, ◌∙◌, arith, true, false, List, [], ◌∷◌,
  ◌++◌, append_assoc, All, length, length-append, take, drop, text_eq, text_eq_self, text_eq_iff,
  ltb, ◌==◌,
}
use mathlib.Core.List.{append-nil}
use sdb_building_a_debugger.Cli.Words.{split_from, split, last_item, is_prefix}

-- The words with the delimiter between them.
abbrev pub join : ℕ → List (List ℕ) → List ℕ
join delimiter [] = []
join delimiter (word ∷ []) = word
join delimiter (word ∷ next ∷ words) = word ++ delimiter ∷ join delimiter (next ∷ words)

-- No word holds the delimiter, and the last word is not empty.
abbrev pub Words : ℕ → List (List ℕ) → Type 0
Words delimiter [] = Unit {0}
Words delimiter (word ∷ []) = All (λ (c : ℕ). c ≢ delimiter) word × (0 < length word)
Words delimiter (word ∷ next ∷ words) =
    All (λ (c : ℕ). c ≢ delimiter) word × Words delimiter (next ∷ words)

split_from_word :
    (delimiter : ℕ) (item word rest : List ℕ)
    → All (λ (c : ℕ). c ≢ delimiter) word
    → split_from delimiter item (word ++ rest) ≡ split_from delimiter (item ++ word) rest
unfolding split_from
split_from_word delimiter item [] rest h =
    ap (λ i. split_from delimiter i rest) (sym (append-nil item))
split_from_word delimiter item (c ∷ word) rest h =
    let other : (c == delimiter) ≡ false = ground (arith, h.0) in
    rw (split_from, other)
      (split_from_word delimiter (item ++ c ∷ []) word rest h.1
        ∙ ap (λ i. split_from delimiter i rest) (append_assoc item (c ∷ []) word))

last_word : (word : List ℕ) → 0 < length word → last_item word ≡ word ∷ []
last_word [] h = absurd (omega arith)
last_word (c ∷ word) h = refl

split_from_delimiter :
    (delimiter : ℕ) (item rest : List ℕ)
    → split_from delimiter item (delimiter ∷ rest) ≡ item ∷ split_from delimiter [] rest
unfolding split_from
split_from_delimiter delimiter item rest =
    let same : (delimiter == delimiter) ≡ true = ground arith in rw (split_from, same) refl

-- `split` gives the words back that were put together with the delimiter, where no word holds the
-- delimiter and the last is not empty.
pub split-join :
    (delimiter : ℕ) (words : List (List ℕ))
    → Words delimiter words
    → split (join delimiter words) delimiter ≡ words
unfolding split
split-join delimiter [] h = refl
split-join delimiter (word ∷ []) h =
    let all : split_from delimiter [] (word ++ []) ≡ split_from delimiter word [] =
      split_from_word delimiter [] word [] h.0 in
    ap (λ text. split_from delimiter [] text) (sym (append-nil word)) ∙ (all ∙ last_word word h.1)
split-join delimiter (word ∷ next ∷ words) h =
    split_from_word delimiter [] word (delimiter ∷ join delimiter (next ∷ words)) h.0
    ∙ (split_from_delimiter delimiter word (join delimiter (next ∷ words))
        ∙ ap (◌∷◌ word) (split-join delimiter (next ∷ words) h.1))

take-append : (xs ys : List ℕ) → take (length xs) (xs ++ ys) ≡ xs
take-append [] ys = refl
take-append (x ∷ xs) ys = ap (◌∷◌ x) (take-append xs ys)

take-drop : (n : ℕ) (xs : List ℕ) → take n xs ++ drop n xs ≡ xs
take-drop zero xs = refl
take-drop (suc n) [] = refl
take-drop (suc n) (x ∷ xs) = ap (◌∷◌ x) (take-drop n xs)

pub is_prefix-append : (str rest : List ℕ) → is_prefix str (str ++ rest) ≡ true
unfolding is_prefix
is_prefix-append str rest =
    let long : ltb (length (str ++ rest)) (length str) ≡ false =
      ground (arith, length-append str rest) in
    rw (long, take-append str rest) (text_eq_self str)

-- `is_prefix` says yes exactly if the second text is the first with something behind it, which can be
-- nothing.
pub is_prefix_lem :
    (str of : List ℕ) → (is_prefix str of ≡ true) ↔ ((rest : List ℕ) × (of ≡ str ++ rest))
unfolding is_prefix
is_prefix_lem str of = (
  (λ h.
      let front : text_eq str (take (length str) of) ≡ true = ground arith in
      let same = (text_eq_iff str (take (length str) of)).0 front in
      (
        drop (length str) of,
        sym (ap (λ t. t ++ drop (length str) of) same ∙ take-drop (length str) of),
      )),
  (λ (rest, e). subst (λ t. is_prefix str t ≡ true) (sym e) (is_prefix-append str rest)),
)
