-- ===== src/Base/Assoc.antt =====
-- `HashMap<String, V>` as an association list, of which a program sees only the lookups.
use mathlib.Core.Path.{◌≡◌, refl, sym, subst, ap₂, ◌∙◌}
use mathlib.Core.Logic.{inl, inr}
use mathlib.Core.List.{List, [], ◌∷◌}
use mathlib.Core.Option.{Option, none, some}
use native.Mathlib.Omega.{arith}
use mantalon.Base.Tests.{if◌then◌else◌, Bool-cases}
use mantalon.Base.Lists.{All}
use mantalon.Base.Bytes.{Text, eqb, eqb_iff}

abbrev pub Assoc {ℓ} : Type ℓ → Type ℓ
Assoc V = List (Text × V)

module _ {ℓ} {V : Type ℓ} where
  unfoldable pub lookup : Text → Assoc V → Option V
  lookup k [] = none
  lookup k ((j, v) ∷ m) = if eqb j k then some v else lookup k m

  -- `map.insert(k, v)`
  unfoldable pub insert : Text → V → Assoc V → Assoc V
  insert k v [] = (k, v) ∷ []
  insert k v ((j, w) ∷ m) = if eqb j k then (k, v) ∷ m else (j, w) ∷ insert k v m

  -- `map.remove(k)`
  unfoldable pub remove : Text → Assoc V → Assoc V
  remove k [] = []
  remove k ((j, w) ∷ m) = let rest = remove k m in if eqb j k then rest else (j, w) ∷ rest

  pub lookup-insert :
      (k j : Text) (v : V) (m : Assoc V)
      → lookup j (insert k v m) ≡ (if eqb k j then some v else lookup j m)
  unfolding lookup insert
  lookup-insert k j v [] = refl
  lookup-insert k j v ((i, w) ∷ m) =
      ground (arith, eqb_iff k j, eqb_iff i k, eqb_iff i j, lookup-insert k j v m)

  pub lookup-remove :
      (k j : Text) (m : Assoc V) → lookup j (remove k m) ≡ (if eqb k j then none else lookup j m)
  unfolding lookup remove
  lookup-remove k j [] = ground arith
  lookup-remove k j ((i, w) ∷ m) =
      ground (arith, eqb_iff k j, eqb_iff i k, eqb_iff i j, lookup-remove k j m)

module _ {ℓ κ} {V : Type ℓ} (P : Text × V → Type κ) where
  pub All-insert : (k : Text) (v : V) (m : Assoc V) → P (k, v) → All P m → All P (insert k v m)
  unfolding insert
  All-insert k v [] p _ = (p, tt)
  All-insert k v ((j, w) ∷ m) p (q, h) = elim (Bool-cases (eqb j k)) [
    | inl e ↦ rw (e, insert) (p, h)
    | inr e ↦ rw (e, insert) (q, All-insert k v m p h)
  ]

  pub All-remove : (k : Text) (m : Assoc V) → All P m → All P (remove k m)
  unfolding remove
  All-remove k [] _ = tt
  All-remove k ((j, w) ∷ m) (q, h) = elim (Bool-cases (eqb j k)) [
    | inl e ↦ rw (e, remove) (All-remove k m h)
    | inr e ↦ rw (e, remove) (q, All-remove k m h)
  ]

  pub lookup-All : (k : Text) (v : V) (m : Assoc V) → All P m → lookup k m ≡ some v → P (k, v)
  unfolding lookup
  lookup-All k v [] _ e = cc
  lookup-All k v ((j, w) ∷ m) (q, h) e = elim (Bool-cases (eqb j k)) [
    | inl same ↦
        let here : lookup k ((j, w) ∷ m) ≡ some w = rw (same, lookup) refl in
        let found : w ≡ v = cc in
        subst P (ap₂ (λ (x : Text) (y : V). (x, y)) ((eqb_iff j k).0 same) found) q
    | inr differs ↦
        let there : lookup k ((j, w) ∷ m) ≡ lookup k m = rw (differs, lookup) refl in
        lookup-All k v m h (sym there ∙ e)
  ]
