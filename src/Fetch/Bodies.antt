-- ===== src/Fetch/Bodies.antt =====
-- Reading a whole body.
use mantalon.Base.{
  List, [], ◌∷◌, ◌++◌, some, Text, concat, map, ◌≡◌, refl, ap, ◌↔◌, ◌∙◌, sym, Option-cases, inl,
  inr,
}
use mantalon.Fetch.{Chunk, data_, trailers, failed, read_entire_body}

data-read_entire_body :
    (pieces : List Text) → read_entire_body (map data_ pieces) ≡ some (concat pieces)
unfolding read_entire_body
data-read_entire_body [] = refl
data-read_entire_body (piece ∷ pieces) = rw (data-read_entire_body pieces) refl

pieces_of :
    (chunks : List Chunk) (body : Text)
    → read_entire_body chunks ≡ some body
    → (pieces : List Text) × ((chunks ≡ map data_ pieces) × (body ≡ concat pieces))
unfolding read_entire_body
pieces_of [] body = λ h. ([], (refl, cc))
pieces_of (trailers ∷ chunks) body = λ h. cc
pieces_of (failed ∷ chunks) body = λ h. cc
pieces_of (data_ bytes ∷ chunks) body = elim (Option-cases (read_entire_body chunks)) [
  | inl x ↦ rw x (λ h. cc)
  | inr (rest, x) ↦ rw x (λ h.
      let (pieces, (e, same)) = pieces_of chunks rest x in
      let whole : body ≡ bytes ++ rest = cc in
      (bytes ∷ pieces, (ap (λ l. data_ bytes ∷ l) e, whole ∙ ap (λ l. bytes ++ l) same)))
]

-- A body is read exactly when all that it gives are bytes, and then it is those bytes in their
-- order; an error, or trailers even behind all of the bytes, makes the reading fail.
read_entire_body_iff :
    (chunks : List Chunk) (body : Text)
    → (read_entire_body chunks ≡ some body)
      ↔ ((pieces : List Text) × ((chunks ≡ map data_ pieces) × (body ≡ concat pieces)))
read_entire_body_iff chunks body = (
  pieces_of chunks body,
  λ (pieces, (e, same)). ap read_entire_body e ∙ data-read_entire_body pieces ∙ ap some (sym same),
)
