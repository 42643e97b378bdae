-- ===== src/Substitution/Replace.antt =====
-- `replace_in_vec` against a single pass over the bytes.
use mantalon.Base.{
  ℕ, zero, suc, ◌+◌, ◌-◌, ◌<◌, max, [], ◌∷◌, ◌++◌, none, some, Text, length, take, drop, leb,
  if◌then◌else◌, ◌≡◌, refl, arith, starts_with, ap, ◌∙◌, drop-append_add, take-append_add,
  Option-cases, length-take_of_le, Bool-cases, inl, inr, length-append, append_assoc, append-nil,
  replicate, concat, drop-append_length, length-drop,
}
use mantalon.Substitution.{search_haystack, splice, replace_loop, replace_in_vec}
use mantalon.Substitution.Search.{find, search-eq-find}

-- At most `n` occurrences of the pattern are replaced, from the left and without overlaps, in one
-- pass over the bytes; `skip` counts the bytes of a replaced occurrence that are still to be left
-- out.
unfoldable pub replace_scan : Text → Text → ℕ → ℕ → Text → Text
replace_scan pattern_ replacement n skip [] = []
replace_scan pattern_ replacement n (suc skip) (x ∷ xs) =
    replace_scan pattern_ replacement n skip xs
replace_scan pattern_ replacement zero zero (x ∷ xs) = x ∷ xs
replace_scan pattern_ replacement (suc n) zero (x ∷ xs) =
    let replaced = replacement ++ replace_scan pattern_ replacement n (length pattern_ - 1) xs in
    let kept = x ∷ replace_scan pattern_ replacement (suc n) zero xs in
    if starts_with (x ∷ xs) pattern_ then replaced else kept

drop-nil : (n : ℕ) → drop {A = ℕ} n [] ≡ []
drop-nil zero = refl
drop-nil (suc n) = refl

drop_add : (xs : Text) (j k n : ℕ) → n ≡ k + j → drop n xs ≡ drop k (drop j xs)
drop_add [] j k n e = ground (arith, drop-nil n, drop-nil j, drop-nil k)
drop_add (x ∷ xs) zero k n e = ap (λ (n : ℕ). drop n (x ∷ xs)) (omega arith)
drop_add (x ∷ xs) (suc j) k zero e = absurd (omega arith)
drop_add (x ∷ xs) (suc j) k (suc n) e = drop_add xs j k n (omega arith)

module _ (y : ℕ) (tail replacement : Text) where
  abbrev scan : ℕ → ℕ → Text → Text
  scan = replace_scan (y ∷ tail) replacement

  scan-skip : (n skip : ℕ) (xs : Text) → scan n skip xs ≡ scan n 0 (drop skip xs)
  unfolding replace_scan
  scan-skip n zero xs = refl
  scan-skip n (suc skip) [] = refl
  scan-skip n (suc skip) (x ∷ xs) = scan-skip n skip xs

  scan-zero : (xs : Text) → scan 0 0 xs ≡ xs
  unfolding replace_scan
  scan-zero [] = refl
  scan-zero (x ∷ xs) = refl

  scan-none : (n : ℕ) (xs : Text) → find (y ∷ tail) xs ≡ none → scan n 0 xs ≡ xs
  unfolding replace_scan
  scan-none n [] e = refl
  scan-none zero (x ∷ xs) e = refl
  scan-none (suc n) (x ∷ xs) e = ground (arith, scan-none (suc n) xs)

  -- The pass goes on behind the first occurrence.
  scan-some :
      (n : ℕ) (xs : Text) (i : ℕ)
      → find (y ∷ tail) xs ≡ some i
      → scan (suc n) 0 xs
        ≡ take i xs ++ (replacement ++ scan n 0 (drop (length (y ∷ tail)) (drop i xs)))
  unfolding replace_scan
  scan-some n [] i e = cc
  scan-some n (x ∷ xs) zero e =
      ground (arith, Option-cases (find (y ∷ tail) xs), scan-skip n (length tail) xs)
  scan-some n (x ∷ xs) (suc i) e = ground (arith, scan-some n xs i)

  find-le : (xs : Text) (i : ℕ) → find (y ∷ tail) xs ≡ some i → i < length xs
  find-le [] i e = cc
  find-le (x ∷ xs) zero e = omega arith
  find-le (x ∷ xs) (suc i) e = ground (arith, find-le xs i)

  -- What one round of the loop leaves: the bytes that are done, and the bytes to search.
  abbrev done' : Text → Text → ℕ → Text
  done' done rest j = done ++ (take j rest ++ replacement)

  abbrev rest' : Text → ℕ → Text
  rest' rest j = drop (length (y ∷ tail)) (drop j rest)

  splice-round :
      (done rest : Text) (j : ℕ)
      → splice (done ++ rest) (length done + j) (length done + j + length (y ∷ tail)) replacement
        ≡ done' done rest j ++ rest' rest j
  unfolding splice
  splice-round done rest j =
      rw
        (
          take-append_add done rest j (length done + j) refl,
          drop-append_add done rest (length (y ∷ tail) + j) (length done + j + length (y ∷ tail))
              (omega arith),
          drop_add rest j (length (y ∷ tail)) (length (y ∷ tail) + j) refl,
        )
        (simp append_assoc)

  length-round :
      (done rest : Text) (j : ℕ)
      → j < length rest
      → length done + (j + length replacement) ≡ length (done' done rest j)
  length-round done rest j h = omega (
    arith,
    length-append done (take j rest ++ replacement),
    length-append (take j rest) replacement,
    length-take_of_le j rest,
  )

  rest'-shorter :
      (rest : Text) (j fuel : ℕ)
      → j < length rest
      → length rest < suc fuel
      → length (rest' rest j) < fuel
  rest'-shorter rest j fuel lt h =
      omega (arith, length-drop (length (y ∷ tail)) (drop j rest), length-drop j rest)

  -- With more fuel than bytes to search the loop ends, and has done what the pass does.
  replace_loop-scan :
      (m fuel : ℕ) (done rest : Text) (i : ℕ)
      → length rest < fuel
      → replace_loop (y ∷ tail) replacement m fuel (done ++ rest) (length done) i
        ≡ some (done ++ scan (suc (m - suc i)) 0 rest)
  unfolding replace_loop
  replace_loop-scan m zero done rest i h = absurd (omega arith)
  replace_loop-scan m (suc fuel) done rest i h =
      let searched : search_haystack (y ∷ tail) (drop (length done) (done ++ rest))
          ≡ find (y ∷ tail) rest =
        rw drop-append_length (search-eq-find y tail rest) in
      elim (Option-cases (find (y ∷ tail) rest)) [
        | inl e ↦ rw (searched ∙ e, replace_loop) (rw (scan-none (suc (m - suc i)) rest e))
        | inr (j, e) ↦
            rw (searched ∙ e, replace_loop)
              (elim (Bool-cases (leb m (i + 1))) [
                | inl last ↦
                    let none_left : m - suc i ≡ 0 = ground arith in
                    rw
                      (
                        last,
                        none_left,
                        splice-round done rest j,
                        scan-some 0 rest j e,
                        scan-zero (rest' rest j),
                      )
                      (simp append_assoc)
                | inr more ↦
                    let one_less : m - suc i ≡ suc (m - suc (i + 1)) = ground arith in
                    rw
                      (
                        more,
                        splice-round done rest j,
                        length-round done rest j (find-le rest j e),
                        one_less,
                        scan-some (suc (m - suc (i + 1))) rest j e,
                      )
                      (replace_loop-scan m fuel (done' done rest j) (rest' rest j) (i + 1)
                          (rest'-shorter rest j fuel (find-le rest j e) h)
                        ∙ ap some (simp append_assoc))
              ])
      ]

-- For a non-empty pattern the loop of `replace_in_vec` ends, and it has replaced the first
-- `max_replacements` occurrences of the pattern from the left without overlaps (the first one also
-- when `max_replacements` is 0), as one pass over the bytes does.
pub replace_in_vec-replace_scan :
    (y : ℕ) (tail replacement bytes : Text) (max_replacements : ℕ)
    → replace_in_vec (y ∷ tail) replacement max_replacements bytes
      ≡ some (replace_scan (y ∷ tail) replacement (max 1 max_replacements) 0 bytes)
unfolding replace_in_vec
replace_in_vec-replace_scan y tail replacement bytes m =
    let rounds : suc (m - suc 0) ≡ max 1 m = omega arith in
    replace_loop-scan y tail replacement m (suc (suc (length bytes + m))) [] bytes 0 (omega arith)
    ∙ ap (λ (n : ℕ). some (replace_scan (y ∷ tail) replacement n 0 bytes)) rounds

splice-here :
    (replacement done rest : Text)
    → splice (done ++ rest) (length done + 0) (length done + 0 + 0) replacement
      ≡ (done ++ replacement) ++ rest
unfolding splice
splice-here replacement done rest =
    rw
      (
        take-append_add done rest 0 (length done + 0) refl,
        drop-append_add done rest 0 (length done + 0 + 0) (omega arith),
      )
      (simp (append_assoc, append-nil))

length-here :
    (replacement done : Text)
    → length done + (0 + length replacement) ≡ length (done ++ replacement)
length-here replacement done = omega (arith, length-append done replacement)

search-nil : (xs : Text) → search_haystack [] xs ≡ some 0
unfolding search_haystack
search-nil xs = refl

replace_loop-empty :
    (replacement : Text) (m fuel : ℕ) (done rest : Text) (i : ℕ)
    → suc (m - suc i) < fuel
    → replace_loop [] replacement m fuel (done ++ rest) (length done) i
      ≡ some (done ++ (concat (replicate (suc (m - suc i)) replacement) ++ rest))
unfolding replace_loop
replace_loop-empty replacement m zero done rest i h = absurd (omega arith)
replace_loop-empty replacement m (suc fuel) done rest i h =
    let searched : search_haystack [] (drop (length done) (done ++ rest)) ≡ some 0 =
      search-nil (drop (length done) (done ++ rest)) in
    rw (searched, replace_loop)
      (elim (Bool-cases (leb m (i + 1))) [
        | inl last ↦
            let none_left : m - suc i ≡ 0 = ground arith in
            rw (last, none_left, splice-here replacement done rest)
              (simp (append_assoc, append-nil))
        | inr more ↦
            let one_less : m - suc i ≡ suc (m - suc (i + 1)) = ground arith in
            rw (more, splice-here replacement done rest, length-here replacement done, one_less)
              (replace_loop-empty replacement m fuel (done ++ replacement) rest (i + 1)
                  (omega arith)
                ∙ ap some (simp append_assoc))
      ])

-- The empty pattern is found in front of every byte that is left, so the replacement is put in
-- `max_replacements` times (once for 0) in front of the text, and nothing else changes.
pub replace_in_vec-empty :
    (replacement bytes : Text) (max_replacements : ℕ)
    → replace_in_vec [] replacement max_replacements bytes
      ≡ some (concat (replicate (max 1 max_replacements) replacement) ++ bytes)
unfolding replace_in_vec
replace_in_vec-empty replacement bytes m =
    let rounds : suc (m - suc 0) ≡ max 1 m = omega arith in
    replace_loop-empty replacement m (suc (suc (length bytes + m))) [] bytes 0 (omega arith)
    ∙ ap (λ (n : ℕ). some (concat (replicate n replacement) ++ bytes)) rounds
