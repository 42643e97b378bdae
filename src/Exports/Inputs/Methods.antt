-- ===== src/Exports/Inputs/Methods.antt =====
-- The methods of a fetch and their names.
use mantalon.Base.{
  List, [], ◌∷◌, false, Text, codes, eqb, eqb_iff, ◌≡◌, ◌≢◌, ◌⊎◌, inl, inr, refl, arith, All,
  Bool-cases, ◌∙◌,
}
use mantalon.Http.{Method, get, post, put, delete, head, options, connect, patch, trace, extension}
use mantalon.Exports.Inputs.{text_value, from_method, match_method, method_names}

-- `Method::as_str`
abbrev method_name : Method → Text
method_name get = codes "GET"
method_name post = codes "POST"
method_name put = codes "PUT"
method_name delete = codes "DELETE"
method_name head = codes "HEAD"
method_name options = codes "OPTIONS"
method_name connect = codes "CONNECT"
method_name patch = codes "PATCH"
method_name trace = codes "TRACE"
method_name (extension name) = name

abbrev IsNoName : Text → Type 0
IsNoName s = All (λ (arm : Text × Method). arm.0 ≢ s) method_names

differs : (arm s : Text) → eqb arm s ≡ false → arm ≢ s
differs arm s e same = ground (arith, eqb_iff arm s)

match_method-cases :
    (arms : List (Text × Method)) (s : Text)
    → All (λ (arm : Text × Method). method_name arm.1 ≡ arm.0) arms
    → (method_name (match_method arms s) ≡ s)
      ⊎ ((match_method arms s ≡ get) × All (λ (arm : Text × Method). arm.0 ≢ s) arms)
unfolding match_method
match_method-cases [] s h = inr (refl, tt)
match_method-cases ((arm, m) ∷ arms) s (named, h) = elim (Bool-cases (eqb arm s)) [
  | inl e ↦ inl (rw (e, match_method) (named ∙ (eqb_iff arm s).0 e))
  | inr e ↦ elim (match_method-cases arms s h) [
    | inl k ↦ inl (rw (e, match_method) k)
    | inr (k, others) ↦ inr (rw (e, match_method) k, (differs arm s e, others))
  ]
]

abbrev IsStandard : Method → Type 0
IsStandard (extension name) = ⊥
IsStandard _ = Unit

names_method : (m : Method) → IsStandard m → from_method (text_value (method_name m)) ≡ m
unfolding from_method match_method
names_method get h = refl
names_method (extension name) h = absurd h
names_method _ h = refl

names_agree : All (λ (arm : Text × Method). method_name arm.1 ≡ arm.0) method_names
names_agree = (refl, (refl, (refl, (refl, (refl, (refl, (refl, (refl, (refl, tt)))))))))

-- Each standard method is read back from its name; and what is read from a text has that text as
-- its name, or the text is the name of no standard method and is read as GET.
from_method-method_name :
    ((m : Method) → IsStandard m → from_method (text_value (method_name m)) ≡ m)
    × ((s : Text)
        → (method_name (from_method (text_value s)) ≡ s)
          ⊎ ((from_method (text_value s) ≡ get) × IsNoName s))
unfolding from_method
from_method-method_name = (names_method, λ s. match_method-cases method_names s names_agree)
