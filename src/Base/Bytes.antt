-- ===== src/Base/Bytes.antt =====
-- Rust's `String`, `str` and `Vec<u8>` as lists of bytes, with the functions of its standard
-- library that the program calls on them.
use Prim.Native.Nat.{ℕ, zero, suc, ◌-◌}
use Prim.Native.Char.{code}
use Prim.Native.String.{String}
use mathlib.Core.Path.{◌≡◌, refl, ap, sym, ◌∙◌}
use mathlib.Core.Logic.{◌↔◌}
use mathlib.Core.Bool.{Bool, true, false, ◌&&◌}
use mathlib.Core.List.{List, [], ◌∷◌, ◌++◌, reverse, reverse-reverse, reverse-append}
use native.Mathlib.Omega.{arith}
use mantalon.Base.Tests.{◌==◌, if◌then◌else◌}
use mantalon.Base.Lists.{length, drop, drop-append_length}

abbrev pub Text : Type 0
Text = List ℕ

-- A text literal of the source, which is ASCII.
abbrev pub codes : String → Text
codes String.[] = []
codes (String.◌∷◌ c s) = code c ∷ codes s

abbrev pub eqb : Text → Text → Bool
eqb [] [] = true
eqb [] (y ∷ ys) = false
eqb (x ∷ xs) [] = false
eqb (x ∷ xs) (y ∷ ys) = x == y && eqb xs ys

pub eqb_iff : (s t : Text) → (eqb s t ≡ true) ↔ (s ≡ t)
eqb_iff [] [] = (λ h. refl, λ h. refl)
eqb_iff [] (y ∷ ys) = (λ h. cc, λ h. cc)
eqb_iff (x ∷ xs) [] = (λ h. cc, λ h. cc)
eqb_iff (x ∷ xs) (y ∷ ys) = ground (arith, eqb_iff xs ys)

pub eqb_refl : (s : Text) → eqb s s ≡ true
eqb_refl s = (eqb_iff s s).1 refl

-- `s.starts_with(p)`
abbrev pub starts_with : Text → Text → Bool
starts_with s [] = true
starts_with [] (y ∷ p) = false
starts_with (x ∷ s) (y ∷ p) = x == y && starts_with s p

-- `s.ends_with(p)`
abbrev pub ends_with : Text → Text → Bool
ends_with s p = starts_with (reverse s) (reverse p)

pub starts_with_append : (p s : Text) → starts_with (p ++ s) p ≡ true
starts_with_append [] s = refl
starts_with_append (x ∷ p) s = ground (arith, starts_with_append p s)

starts_with-drop : (s p : Text) → starts_with s p ≡ true → s ≡ p ++ drop (length p) s
starts_with-drop s [] h = refl
starts_with-drop [] (y ∷ p) h = cc
starts_with-drop (x ∷ s) (y ∷ p) h = ground (arith, starts_with-drop s p)

pub starts_with_iff : (s p : Text) → (starts_with s p ≡ true) ↔ ((t : Text) × (s ≡ p ++ t))
starts_with_iff s p =
    ((λ h. (drop (length p) s, starts_with-drop s p h)), (λ (t, e). rw e (starts_with_append p t)))

pub ends_with-split : (s p : Text) → ends_with s p ≡ true → (t : Text) × (s ≡ t ++ p)
ends_with-split s p h =
    let e = starts_with-drop (reverse s) (reverse p) h in
    let t = drop (length (reverse p)) (reverse s) in
    (
      reverse t,
      sym (reverse-reverse s)
          ∙ ap reverse e
          ∙ reverse-append (reverse p) t
          ∙ ap (λ l. reverse t ++ l) (reverse-reverse p),
    )

pub ends_with_append : (t p : Text) → ends_with (t ++ p) p ≡ true
ends_with_append t p = rw reverse-append (starts_with_append (reverse p) (reverse t))

-- `s.trim_start_matches(p)` takes the prefix off as often as it is there; it is `p` being
-- non-empty that makes the text shorter, and the fuel is the length of the text.
unfoldable trim_loop : ℕ → Text → Text → Text
trim_loop zero s p = s
trim_loop (suc f) s p =
    let shorter = trim_loop f (drop (length p) s) p in if starts_with s p then shorter else s

unfoldable pub trim_start_matches : Text → Text → Text
unfolding trim_loop
trim_start_matches s p = trim_loop (length s) s p

trim_loop-no_prefix : (f : ℕ) (s p : Text) → starts_with s p ≡ false → trim_loop f s p ≡ s
unfolding trim_loop
trim_loop-no_prefix zero s p e = refl
trim_loop-no_prefix (suc f) s p e = rw e refl

pub trim_start_matches_once :
    (p s : Text) → starts_with s p ≡ false → trim_start_matches (p ++ s) p ≡ s
unfolding trim_start_matches trim_loop
trim_start_matches_once [] s e = cc
trim_start_matches_once (x ∷ p) s e =
    rw (starts_with_append (x ∷ p) s, drop-append_length (x ∷ p) s)
      (trim_loop-no_prefix (length (p ++ s)) s (x ∷ p) e)

-- `parts.join(sep)`
abbrev pub join : List Text → Text → Text
join [] sep = []
join (x ∷ []) sep = x
join (x ∷ y ∷ xs) sep = x ++ (sep ++ join (y ∷ xs) sep)

-- `s.replace(from, to)` for a non-empty `from`, in one pass; `skip` counts the bytes of an
-- occurrence that are still to be left out.
replace_from : ℕ → Text → Text → Text → Text
replace_from skip [] from to = []
replace_from (suc skip) (x ∷ s) from to = replace_from skip s from to
replace_from zero (x ∷ s) from to =
    let replaced = to ++ replace_from (length from - 1) s from to in
    let kept = x ∷ replace_from zero s from to in
    if starts_with (x ∷ s) from then replaced else kept

unfoldable pub str_replace : Text → Text → Text → Text
unfolding replace_from
str_replace s from to = replace_from 0 s from to
