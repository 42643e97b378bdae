-- ===== src/Substitution/Search.antt =====
-- What `search_haystack` finds: the first occurrence of the needle.
use mathlib.Core.Option
use mantalon.Base.{
  ℕ, zero, suc, ◌<◌, ◌≤◌, [], ◌∷◌, ◌++◌, Option, none, some, true, false, Text, length, take, drop,
  eqb, if◌then◌else◌, ◌≡◌, refl, arith, starts_with, ap, drop-append_length, starts_with_append,
  starts_with_iff, length-take_of_le, take-append-drop, sym, ◌∙◌, Option-cases, ◌↔◌, Bool-cases,
  inl, inr,
}
use mantalon.Substitution.{windows, position, search_haystack}

-- The search as one pass over the haystack.
abbrev pub find : Text → Text → Option ℕ
find needle [] = none
find needle (x ∷ xs) =
    if starts_with (x ∷ xs) needle then some 0 else Option.map suc (find needle xs)

eqb-take :
    (needle xs : Text)
    → length needle ≤ length xs
    → eqb (take (length needle) xs) needle ≡ starts_with xs needle
eqb-take [] xs h = refl
eqb-take (y ∷ needle) [] h = absurd (omega arith)
eqb-take (y ∷ needle) (x ∷ xs) h = ground (arith, eqb-take needle xs)

starts_with_short : (xs needle : Text) → length xs < length needle → starts_with xs needle ≡ false
starts_with_short xs [] h = absurd (omega arith)
starts_with_short [] (y ∷ needle) h = refl
starts_with_short (x ∷ xs) (y ∷ needle) h = ground (arith, starts_with_short xs needle)

find_short : (needle xs : Text) → length xs < length needle → find needle xs ≡ none
find_short needle [] h = refl
find_short needle (x ∷ xs) h =
    ground (arith, starts_with_short (x ∷ xs) needle, find_short needle xs)

position-windows :
    (needle xs : Text) → position (λ w. eqb w needle) (windows (length needle) xs) ≡ find needle xs
unfolding windows position
position-windows needle [] = refl
position-windows needle (x ∷ xs) = ground (
  arith,
  position-windows needle xs,
  eqb-take needle (x ∷ xs),
  find_short needle (x ∷ xs),
  starts_with_short (x ∷ xs) needle,
)

pub search-eq-find :
    (y : ℕ) (needle xs : Text) → search_haystack (y ∷ needle) xs ≡ find (y ∷ needle) xs
unfolding search_haystack
search-eq-find y needle xs = position-windows (y ∷ needle) xs

-- The needle stands in the text behind `i` bytes.
abbrev pub OccursAt : Text → Text → ℕ → Type 0
OccursAt needle xs i =
    (pre : Text) × (post : Text) × (length pre ≡ i) × (xs ≡ pre ++ (needle ++ post))

OccursAt-starts_with :
    (needle xs : Text) (i : ℕ) → OccursAt needle xs i → starts_with (drop i xs) needle ≡ true
OccursAt-starts_with needle xs i (pre, post, l, e) =
    rw (← l, e, drop-append_length) (starts_with_append needle post)

starts_with-OccursAt :
    (needle xs : Text) (i : ℕ)
    → i ≤ length xs
    → starts_with (drop i xs) needle ≡ true
    → OccursAt needle xs i
starts_with-OccursAt needle xs i le h =
    let (post, e) = (starts_with_iff (drop i xs) needle).0 h in
    (
      take i xs,
      post,
      length-take_of_le i xs le,
      sym (take-append-drop i xs) ∙ ap (λ l. take i xs ++ l) e,
    )

module _ (y : ℕ) (needle : Text) where
  find-starts_with :
      (xs : Text) (i : ℕ)
      → find (y ∷ needle) xs ≡ some i
      → (i < length xs) × (starts_with (drop i xs) (y ∷ needle) ≡ true)
  find-starts_with [] i e = cc
  find-starts_with (x ∷ xs) zero e = ground (arith, Option-cases (find (y ∷ needle) xs))
  find-starts_with (x ∷ xs) (suc i) e = ground (arith, find-starts_with xs i)

  starts_with-find :
      (xs : Text) (j : ℕ)
      → starts_with (drop j xs) (y ∷ needle) ≡ true
      → (i : ℕ) × (find (y ∷ needle) xs ≡ some i) × (i ≤ j)
  starts_with-find [] zero h = cc
  starts_with-find [] (suc j) h = cc
  starts_with-find (x ∷ xs) zero h = (0, rw h refl, omega arith)
  starts_with-find (x ∷ xs) (suc j) h =
      let (i, e, le) = starts_with-find xs j h in
      elim (Bool-cases (starts_with (x ∷ xs) (y ∷ needle))) [
        | inl here ↦ (0, rw here refl, omega arith)
        | inr later ↦ (suc i, rw later (rw e refl), omega arith)
      ]

  first_le :
      (xs : Text) (i j : ℕ)
      → find (y ∷ needle) xs ≡ some i
      → ((k : ℕ) × (find (y ∷ needle) xs ≡ some k) × (k ≤ j))
      → i ≤ j
  first_le xs i j e (k, found, le) =
      let same : some i ≡ some k = sym e ∙ found in ground (arith, same)

  find-OccursAt :
      (xs : Text) (i : ℕ)
      → find (y ∷ needle) xs ≡ some i
      → OccursAt (y ∷ needle) xs i × ((j : ℕ) → OccursAt (y ∷ needle) xs j → i ≤ j)
  find-OccursAt xs i e =
      let (lt, here) = find-starts_with xs i e in
      (
        starts_with-OccursAt (y ∷ needle) xs i (omega arith) here,
        λ j occurs.
            let found = starts_with-find xs j (OccursAt-starts_with (y ∷ needle) xs j occurs) in
            first_le xs i j e found,
      )

-- `search_haystack` returns `Some(i)` exactly when the needle occurs at `i` and at no smaller
-- index.
pub search_haystack-eq-some_iff :
    (needle xs : Text) (i : ℕ)
    → (search_haystack needle xs ≡ some i)
      ↔ (OccursAt needle xs i × ((j : ℕ) → OccursAt needle xs j → i ≤ j))
unfolding search_haystack
search_haystack-eq-some_iff [] xs i = (
  (λ e. (([], xs, ground arith, refl), λ j _. ground arith)),
  (λ (_, least). let h : i ≤ 0 = least 0 ([], xs, refl, refl) in ground arith),
)
search_haystack-eq-some_iff (y ∷ needle) xs i = (
  (λ e. find-OccursAt y needle xs i (sym (search-eq-find y needle xs) ∙ e)),
  (λ (occurs, least).
      let (k, found, le) =
        starts_with-find y needle xs i (OccursAt-starts_with (y ∷ needle) xs i occurs) in
      let le' : i ≤ k = least k (find-OccursAt y needle xs k found).0 in
      search-eq-find y needle xs ∙ found ∙ ap some (omega arith)),
)

search_haystack-OccursAt :
    (needle xs : Text) (i : ℕ)
    → OccursAt needle xs i
    → (k : ℕ) × (search_haystack needle xs ≡ some k)
unfolding search_haystack
search_haystack-OccursAt [] xs i occurs = (0, refl)
search_haystack-OccursAt (y ∷ needle) xs i occurs =
    let (k, found, _) =
      starts_with-find y needle xs i (OccursAt-starts_with (y ∷ needle) xs i occurs) in
    (k, search-eq-find y needle xs ∙ found)

-- `search_haystack` returns `None` exactly when the needle occurs nowhere.
pub search_haystack-eq-none_iff :
    (needle xs : Text) → (search_haystack needle xs ≡ none) ↔ ((i : ℕ) → ¬ (OccursAt needle xs i))
search_haystack-eq-none_iff needle xs = (
  (λ e i occurs. let (k, found) = search_haystack-OccursAt needle xs i occurs in cc (e, found)),
  (λ h. elim (Option-cases (search_haystack needle xs)) [
    | inl e ↦ e
    | inr (i, e) ↦ absurd (h i ((search_haystack-eq-some_iff needle xs i).0 e).0)
  ]),
)
