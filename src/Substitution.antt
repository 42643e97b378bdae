-- ===== src/Substitution.antt =====
-- `search_haystack` and `replace_in_vec` of mantalon-client/src/manifest.rs, over bytes.
pub mod Search
pub mod Replace
pub mod Bounds
use mantalon.Base.{
  ℕ, zero, suc, ◌+◌, List, [], ◌∷◌, ◌++◌, Option, none, some, Bool, true, false, Text, length, take,
  drop, eqb, leb, if◌then◌else◌, ◌≡◌, ◌<◌, refl, codes,
}
use mathlib.Core.Option

-- `xs.windows(n)`, for a positive `n`
windows : ℕ → Text → List Text
windows n [] = []
windows n (x ∷ xs) = if leb n (length (x ∷ xs)) then take n (x ∷ xs) ∷ windows n xs else []

-- `iter.position(p)`
position : (Text → Bool) → List Text → Option ℕ
position p [] = none
position p (w ∷ ws) = if p w then some 0 else Option.map suc (position p ws)

unfoldable pub search_haystack : Text → Text → Option ℕ
unfolding windows position
search_haystack [] haystack = some 0
search_haystack (y ∷ needle) haystack =
    position (λ w. eqb w (y ∷ needle)) (windows (length (y ∷ needle)) haystack)

-- `data.splice(from..to, replacement)`
unfoldable pub splice : Text → ℕ → ℕ → Text → Text
splice bytes from to replacement = take from bytes ++ (replacement ++ drop to bytes)

module _ (pattern_ replacement : Text) (max_replacements : ℕ) where
  -- The `while let` loop of `replace_in_vec` on its variables; `none` means that the fuel ran out.
  replace_loop : ℕ → Text → ℕ → ℕ → Option Text
  replace_loop zero bytes idx_start i = none
  replace_loop (suc fuel) bytes idx_start i =
      elim (search_haystack pattern_ (drop idx_start bytes)) [
        | none ↦ some bytes
        | some idx ↦
            let bytes' =
              splice bytes (idx_start + idx) (idx_start + idx + length pattern_) replacement in
            elim (leb max_replacements (i + 1)) [
              | true ↦ some bytes'
              | false ↦ replace_loop fuel bytes' (idx_start + (idx + length replacement)) (i + 1)
            ]
      ]

  -- Each round but the last raises `i`, and for a non-empty pattern it also leaves fewer bytes to
  -- search, so this much fuel is never used up.
  unfoldable pub replace_in_vec : Text → Option Text
  unfolding replace_loop search_haystack splice
  replace_in_vec bytes = replace_loop (suc (suc (length bytes + max_replacements))) bytes 0 0
