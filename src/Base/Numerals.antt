-- ===== src/Base/Numerals.antt =====
-- Decimal numbers in a text: what they are made of, reading them back, and what separates them.
use Prim.Native.Nat.{ℕ, zero, suc, ◌+◌, ◌-◌, ◌*◌, ◌/◌, ◌%◌, ◌≤◌, ◌<◌}
use mathlib.Core.Path.{◌≡◌, refl, sym, ap, ◌∙◌}
use mathlib.Core.Logic.{◌⊎◌, ◌≢◌}
use mathlib.Core.Bool.{false}
use mathlib.Core.List.{List, [], ◌∷◌, ◌++◌}
use native.Mathlib.Omega.{arith}
use mantalon.Base.Tests.{◌==◌, ==_iff}
use mantalon.Base.Lists.{any, All, All-append, length}
use mantalon.Base.Bytes.{Text, join}
use mantalon.Base.Decimal.{digits, decimal, decimals}

abbrev IsDigit : ℕ → Type 0
IsDigit c = (48 ≤ c) × (c < 58)

-- The number that digits stand for, behind the number that those in front of them stand for.
unfoldable value_from : ℕ → Text → ℕ
value_from n [] = n
value_from n (c ∷ s) = value_from (n * 10 + (c - 48)) s

value_from-append : (n : ℕ) (s t : Text) → value_from n (s ++ t) ≡ value_from (value_from n s) t
unfolding value_from
value_from-append n [] t = refl
value_from-append n (c ∷ s) t = value_from-append (n * 10 + (c - 48)) s t

value-digits : (fuel n : ℕ) → n < fuel → value_from 0 (digits fuel n) ≡ n
unfolding value_from digits
value-digits zero n h = absurd (omega arith)
value-digits (suc fuel) n h = ground (
  arith,
  value-digits fuel (n / 10),
  value_from-append 0 (digits fuel (n / 10)) ((n % 10 + 48) ∷ []),
)

digits-IsDigit : (fuel n : ℕ) → All IsDigit (digits fuel n)
unfolding digits
digits-IsDigit zero n = tt
digits-IsDigit (suc fuel) n = ground (
  arith,
  digits-IsDigit fuel (n / 10),
  All-append IsDigit (digits fuel (n / 10)) ((n % 10 + 48) ∷ []),
)

pub decimal-injective : (n m : ℕ) → decimal n ≡ decimal m → n ≡ m
decimal-injective n m h =
    sym (value-digits (suc n) n (omega arith))
    ∙ ap (value_from 0) h
    ∙ value-digits (suc m) m (omega arith)

-- No byte of the text is the separator.
abbrev pub IsFree : ℕ → Text → Type 0
IsFree c s = All (λ x. x ≢ c) s

pub any-IsFree : (c : ℕ) (s : Text) → any (λ x. x == c) s ≡ false → IsFree c s
any-IsFree c [] h = tt
any-IsFree c (x ∷ s) h = ground (arith, any-IsFree c s, ==_iff x c)

pub split_unique :
    (c : ℕ) (s s' t t' : Text)
    → IsFree c s
    → IsFree c s'
    → s ++ c ∷ t ≡ s' ++ c ∷ t'
    → (s ≡ s') × (t ≡ t')
split_unique c [] [] t t' f f' h = (refl, cc)
split_unique c [] (x ∷ s') t t' f f' h = absurd (f'.0 cc)
split_unique c (x ∷ s) [] t t' f f' h = absurd (f.0 cc)
split_unique c (x ∷ s) (y ∷ s') t t' f f' h =
    let same : x ≡ y = cc in let r = split_unique c s s' t t' f.1 f'.1 cc in (cc, r.1)

digit-IsFree : (c : ℕ) → c < 48 ⊎ (58 ≤ c) → (s : Text) → All IsDigit s → IsFree c s
digit-IsFree c h [] d = tt
digit-IsFree c h (x ∷ s) d = (λ e. ground arith, digit-IsFree c h s d.1)

decimal-IsFree : (c n : ℕ) → (c < 48) ⊎ (58 ≤ c) → IsFree c (decimal n)
decimal-IsFree c n h = digit-IsFree c h (decimal n) (digits-IsDigit (suc n) n)

module _ (c : ℕ) (h : (c < 48) ⊎ (58 ≤ c)) where
  -- Numbers with a separator between them are read back when their count is known.
  pub join-decimals-injective :
      (ns ms : List ℕ)
      → length ns ≡ length ms
      → join (decimals ns) (c ∷ []) ≡ join (decimals ms) (c ∷ [])
      → ns ≡ ms
  join-decimals-injective [] [] l e = refl
  join-decimals-injective [] (m ∷ ms) l e = absurd (omega (arith, l))
  join-decimals-injective (n ∷ ns) [] l e = absurd (omega (arith, l))
  join-decimals-injective (n ∷ []) (m ∷ []) l e = ap (λ k. k ∷ []) (decimal-injective n m e)
  join-decimals-injective (n ∷ []) (m ∷ m' ∷ ms) l e = absurd (omega (arith, l))
  join-decimals-injective (n ∷ n' ∷ ns) (m ∷ []) l e = absurd (omega (arith, l))
  join-decimals-injective (n ∷ n' ∷ ns) (m ∷ m' ∷ ms) l e =
      let (first, rest) =
        split_unique c (decimal n) (decimal m) (join (decimals (n' ∷ ns)) (c ∷ []))
          (join (decimals (m' ∷ ms)) (c ∷ [])) (decimal-IsFree c n h) (decimal-IsFree c m h) e in
      let same = decimal-injective n m first in
      let others = join-decimals-injective (n' ∷ ns) (m' ∷ ms) (omega (arith, l)) rest in cc

pub join-decimals-IsFree :
    (c s : ℕ) (ns : List ℕ) → (s < 48) ⊎ (58 ≤ s) → c ≢ s → IsFree s (join (decimals ns) (c ∷ []))
join-decimals-IsFree c s [] h d = tt
join-decimals-IsFree c s (n ∷ []) h d = decimal-IsFree s n h
join-decimals-IsFree c s (n ∷ m ∷ ns) h d =
    All-append (λ x. x ≢ s) (decimal n) (c ∷ join (decimals (m ∷ ns)) (c ∷ []))
      (decimal-IsFree s n h) (d, join-decimals-IsFree c s (m ∷ ns) h d)
