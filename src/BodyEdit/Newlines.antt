-- ===== src/BodyEdit/Newlines.antt =====
-- The loop that drops the trailing newlines of a body.
use mantalon.Base.{
  ℕ, zero, suc, ◌-◌, ◌≤◌, [], ◌∷◌, ◌++◌, false, Text, ◌≡◌, refl, sym, ap, ◌∙◌, ends_with,
  ends_with-split, length, take, length-append, take-append_length, append_assoc, append-nil,
  replicate, subst, Bool-cases, inl, inr, arith,
}
use mantalon.BodyEdit.{pop_newlines, strip_newlines}

abbrev newline : Text
newline = b'\n' ∷ []

-- All but the last byte.
take-concat : (t : Text) (x : ℕ) → take (length (t ++ x ∷ []) - 1) (t ++ x ∷ []) ≡ t
take-concat t x =
    let shorter : length (t ++ x ∷ []) - 1 ≡ length t = omega (arith, length-append t (x ∷ [])) in
    rw shorter (take-append_length t (x ∷ []))

replicate-concat : (k x : ℕ) → replicate k x ++ x ∷ [] ≡ x ∷ replicate k x
replicate-concat zero x = refl
replicate-concat (suc k) x = ap (λ l. x ∷ l) (replicate-concat k x)

-- `t` is `body` without the newlines at its end.
abbrev IsStripped : Text → Text → Type 0
IsStripped body t = (ends_with t newline ≡ false) × (k : ℕ) × (body ≡ t ++ replicate k b'\n')

IsStripped-concat : (body t : Text) → IsStripped body t → IsStripped (body ++ newline) t
IsStripped-concat body t (no_newline, k, e) = (
  no_newline,
  suc k,
  rw e (append_assoc t (replicate k b'\n') newline ∙ ap (λ l. t ++ l) (replicate-concat k b'\n')),
)

pop_newlines-IsStripped :
    (fuel : ℕ) (body : Text) → length body ≤ fuel → IsStripped body (pop_newlines fuel body)
unfolding pop_newlines
pop_newlines-IsStripped zero [] h = (refl, 0, refl)
pop_newlines-IsStripped zero (x ∷ body) h = absurd (omega arith)
pop_newlines-IsStripped (suc fuel) body h = elim (Bool-cases (ends_with body newline)) [
  | inr stops ↦ rw stops (stops, 0, sym (append-nil body))
  | inl more ↦
      let (t, e) = ends_with-split body newline more in
      let shorter : length t ≤ fuel = omega (arith, length-append t newline, ap length e) in
      let dropped : take (length body - 1) body ≡ t = rw e (take-concat t b'\n') in
      let stripped : IsStripped (t ++ newline) (pop_newlines fuel t) =
        IsStripped-concat t (pop_newlines fuel t) (pop_newlines-IsStripped fuel t shorter) in
      rw (more, dropped) (subst (λ b. IsStripped b (pop_newlines fuel t)) (sym e) stripped)
]

-- The loop of `apply_on_response_body` ends, and takes exactly the newlines off the end of the
-- body.
strip_newlines-IsStripped : (body : Text) → IsStripped body (strip_newlines body)
unfolding strip_newlines
strip_newlines-IsStripped body = pop_newlines-IsStripped (length body) body (omega arith)
