-- ===== src/Substitution/Bounds.antt =====
-- How long a text may become when a pattern is replaced in it.
use mantalon.Base.{
  ℕ, zero, suc, ◌+◌, ◌-◌, ◌*◌, ◌≤◌, max, [], ◌∷◌, some, Text, length, ◌≡◌, arith, starts_with,
  length-append, Bool-cases, inl, inr,
}
use mantalon.Substitution.{replace_in_vec}
use mantalon.Substitution.Replace.{replace_scan, replace_in_vec-replace_scan}

suc_times : (n c : ℕ) → suc n * c ≡ c + n * c
suc_times n c = omega arith

le_times : (n c : ℕ) → n ≤ n * max 1 c
le_times zero c = omega arith
le_times (suc n) c = omega (arith, suc_times n (max 1 c), le_times n c)

module _ (y : ℕ) (tail replacement : Text) where
  -- At most `n` replacements are put in.
  length-replace_scan :
      (n skip : ℕ) (xs : Text)
      → length (replace_scan (y ∷ tail) replacement n skip xs) ≤ length xs + n * length replacement
  unfolding replace_scan
  length-replace_scan n skip [] = omega arith
  length-replace_scan n (suc skip) (x ∷ xs) = omega (arith, length-replace_scan n skip xs)
  length-replace_scan zero zero (x ∷ xs) = omega arith
  length-replace_scan (suc n) zero (x ∷ xs) = elim (Bool-cases (starts_with (x ∷ xs) (y ∷ tail))) [
    | inl e ↦
        rw (e, replace_scan)
          (omega (
            arith,
            suc_times n (length replacement),
            length-replace_scan n (length (y ∷ tail) - 1) xs,
            length-append replacement
                (replace_scan (y ∷ tail) replacement n (length (y ∷ tail) - 1) xs),
          ))
    | inr e ↦ rw (e, replace_scan) (omega (arith, length-replace_scan (suc n) zero xs))
  ]

  -- Each byte becomes at most a replacement.
  length-replace_scan_each :
      (n skip : ℕ) (xs : Text)
      → length (replace_scan (y ∷ tail) replacement n skip xs)
        ≤ length xs * max 1 (length replacement)
  unfolding replace_scan
  length-replace_scan_each n skip [] = omega arith
  length-replace_scan_each n (suc skip) (x ∷ xs) = omega (
    arith,
    suc_times (length xs) (max 1 (length replacement)),
    length-replace_scan_each n skip xs,
  )
  length-replace_scan_each zero zero (x ∷ xs) = le_times (suc (length xs)) (length replacement)
  length-replace_scan_each (suc n) zero (x ∷ xs) =
      elim (Bool-cases (starts_with (x ∷ xs) (y ∷ tail))) [
        | inl e ↦
            rw (e, replace_scan)
              (omega (
                arith,
                suc_times (length xs) (max 1 (length replacement)),
                length-replace_scan_each n (length (y ∷ tail) - 1) xs,
                length-append replacement
                    (replace_scan (y ∷ tail) replacement n (length (y ∷ tail) - 1) xs),
              ))
        | inr e ↦
            rw (e, replace_scan)
              (omega (
                arith,
                suc_times (length xs) (max 1 (length replacement)),
                length-replace_scan_each (suc n) zero xs,
              ))
      ]

-- For a non-empty pattern, `replace_in_vec` ends with a text that is longer by at most one replacement for
-- each that is permitted (for one when `max_replacements` is 0), and in which, however many are
-- permitted, there is at most a replacement for each byte, or one byte where that is empty.
pub length-replace_in_vec :
    (y : ℕ) (tail replacement bytes : Text) (max_replacements : ℕ)
    → (r : Text) × (replace_in_vec (y ∷ tail) replacement max_replacements bytes ≡ some r)
      × (length r ≤ length bytes + max 1 max_replacements * length replacement)
      × (length r ≤ length bytes * max 1 (length replacement))
length-replace_in_vec y tail replacement bytes max_replacements = (
  replace_scan (y ∷ tail) replacement (max 1 max_replacements) 0 bytes,
  replace_in_vec-replace_scan y tail replacement bytes max_replacements,
  length-replace_scan y tail replacement (max 1 max_replacements) 0 bytes,
  length-replace_scan_each y tail replacement (max 1 max_replacements) 0 bytes,
)
