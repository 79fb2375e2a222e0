-- ===== src/Oci/Paths/Ends.antt =====
-- A list of segments by its end.
use velodex.Prelude.{
  ℕ, zero, suc, ◌+◌, ◌-◌, ◌≤◌, ◌<◌, ◌≡◌, refl, sym, ap, ◌∙◌, List, [], ◌∷◌, ◌++◌, Str, arith,
  length, take, drop, get_or, get_elem?, drop-get_elem?, drop_beyond, get_elem?_within,
}
use velodex.Oci.Paths.{from_end, before_end}

take-drop : (n : ℕ) (xs : List Str) → take n xs ++ drop n xs ≡ xs
take-drop zero xs = refl
take-drop (suc n) [] = refl
take-drop (suc n) (x ∷ xs) = ap (λ rest. x ∷ rest) (take-drop n xs)

drop-from_end :
    (k : ℕ) (xs : List Str)
    → suc k ≤ length xs
    → drop (length xs - suc k) xs ≡ from_end (suc k) xs ∷ drop (length xs - k) xs
drop-from_end k xs enough =
    let i = length xs - suc k in
    let (x, found) = get_elem?_within xs i (omega arith) in
    let next : suc i ≡ length xs - k = omega arith in
    drop-get_elem? xs i x found
    ∙ ap (λ y. y ∷ drop (suc i) xs) (sym (ap (get_or []) found))
    ∙ ap (λ j. from_end (suc k) xs ∷ drop j xs) next

drop_all : (xs : List Str) → drop (length xs - 0) xs ≡ []
drop_all xs = drop_beyond xs (length xs - 0) (omega arith)

pub ends_in_two :
    (xs : List Str) → 2 ≤ length xs → before_end 2 xs ++ (from_end 2 xs ∷ from_end 1 xs ∷ []) ≡ xs
ends_in_two xs enough =
    ap (λ rest. before_end 2 xs ++ rest)
      (sym (
        drop-from_end 1 xs enough
        ∙ ap (λ rest. from_end 2 xs ∷ rest)
            (drop-from_end 0 xs (omega arith) ∙ ap (λ rest. from_end 1 xs ∷ rest) (drop_all xs))))
    ∙ take-drop (length xs - 2) xs

pub ends_in_three :
    (xs : List Str)
    → 3 ≤ length xs
    → before_end 3 xs ++ (from_end 3 xs ∷ from_end 2 xs ∷ from_end 1 xs ∷ []) ≡ xs
ends_in_three xs enough =
    ap (λ rest. before_end 3 xs ++ rest)
      (sym (
        drop-from_end 2 xs enough
        ∙ ap (λ rest. from_end 3 xs ∷ rest)
            (drop-from_end 1 xs (omega arith)
              ∙ ap (λ rest. from_end 2 xs ∷ rest)
                  (drop-from_end 0 xs (omega arith)
                    ∙ ap (λ rest. from_end 1 xs ∷ rest) (drop_all xs)))))
    ∙ take-drop (length xs - 3) xs

-- What stands behind a prefix.
pub length_end : (xs ys : List Str) → length (xs ++ ys) ≡ length xs + length ys
length_end [] ys = omega arith
length_end (x ∷ xs) ys = omega (arith, length_end xs ys)

pub take_prefix : {A : Type 0} (xs ys : List A) → take (length xs) (xs ++ ys) ≡ xs
take_prefix [] ys = refl
take_prefix (x ∷ xs) ys = ap (λ rest. x ∷ rest) (take_prefix xs ys)

get_behind : (xs ys : List Str) (i : ℕ) → get_elem? (xs ++ ys) (length xs + i) ≡ get_elem? ys i
get_behind [] ys i = let e : 0 + i ≡ i = omega arith in ap (get_elem? ys) e
get_behind (x ∷ xs) ys i =
    let e : suc (length xs) + i ≡ suc (length xs + i) = omega arith in
    ap (get_elem? (x ∷ (xs ++ ys))) e ∙ get_behind xs ys i

pub before_end_prefix : (k : ℕ) (xs ys : List Str) → length ys ≡ k → before_end k (xs ++ ys) ≡ xs
before_end_prefix k xs ys e =
    let n : length (xs ++ ys) - k ≡ length xs = omega (arith, length_end xs ys) in
    ap (λ j. take j (xs ++ ys)) n ∙ take_prefix xs ys

pub from_end_behind :
    (k i : ℕ) (xs ys : List Str)
    → length ys ≡ k + i
    → 0 < k
    → from_end k (xs ++ ys) ≡ get_or [] (get_elem? ys i)
from_end_behind k i xs ys e positive =
    let n : length (xs ++ ys) - k ≡ length xs + i = omega (arith, length_end xs ys) in
    ap (λ j. get_or [] (get_elem? (xs ++ ys) j)) n ∙ ap (get_or []) (get_behind xs ys i)

get_before : (xs ys : List Str) (i : ℕ) → i < length xs → get_elem? (xs ++ ys) i ≡ get_elem? xs i
get_before [] ys i h = absurd (omega arith)
get_before (x ∷ xs) ys zero h = refl
get_before (x ∷ xs) ys (suc i) h = get_before xs ys i (omega arith)

pub from_end_before :
    (k : ℕ) (xs ys : List Str)
    → 0 < length xs
    → length ys ≡ k
    → from_end (suc k) (xs ++ ys) ≡ from_end 1 xs
from_end_before k xs ys some_left e =
    let n : length (xs ++ ys) - suc k ≡ length xs - 1 = omega (arith, length_end xs ys) in
    ap (λ j. get_or [] (get_elem? (xs ++ ys) j)) n
    ∙ ap (get_or []) (get_before xs ys (length xs - 1) (omega arith))
