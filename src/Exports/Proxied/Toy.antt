-- ===== src/Exports/Proxied/Toy.antt =====
-- A small browser for the tests: headers are an association list, and a response with a body has
-- the statuses from 200 on that have one.
use mathlib.Core.List.{head?}
use mantalon.Base.{
  ℕ, [], ◌∷◌, ◌++◌, Option, none, some, Bool, false, not, ◌&&◌, ◌||◌, Text, eqb, leb, ◌==◌,
  if◌then◌else◌, ◌≡◌, refl, inl, inr, arith, Bool-cases,
}
use mantalon.Http.Toy.{Pairs, values, without, values-without}
use mantalon.Exports.Proxied.{Browser, IsNullBodyStatus}

abbrev pub value_of : Pairs → Text → Option Text
value_of headers name = head? (values headers name)

abbrev pub accepts : ℕ → Bool
accepts status =
    leb 200 status && leb status 599 && not (status == 204 || status == 205 || status == 304)

pub accepts_null_body : (status : ℕ) → IsNullBodyStatus status → accepts status ≡ false
accepts_null_body status h = ground arith

pub value_of-insert :
    (h : Pairs) (k v j : Text)
    → value_of ((k, v) ∷ without h k) j ≡ (if eqb k j then some v else value_of h j)
value_of-insert h k v j = elim (Bool-cases (eqb k j)) [
  | inl e ↦ rw e refl
  | inr e ↦ rw (e, values-without h k j) (rw e refl)
]

pub value_of-without :
    (h : Pairs) (k j : Text) → value_of (without h k) j ≡ (if eqb k j then none else value_of h j)
value_of-without h k j = elim (Bool-cases (eqb k j)) [
  | inl e ↦ rw (values-without h k j, e) refl
  | inr e ↦ rw (values-without h k j, e) refl
]

abbrev pub toy_browser : Browser
toy_browser = record {
  JsHeaders = Pairs;
  new_headers = [];
  append = λ h k v. some (h ++ (k, v) ∷ []);
  get = value_of;
  set = λ h k v. (k, v) ∷ without h k;
  delete = without;
  get-set = λ h k v j _ _. value_of-insert h k v j;
  get-delete = λ h k j _ _. value_of-without h k j;
  accepts_status = accepts;
  accepts_null_body = accepts_null_body;
  accepts_ok = refl;
}
