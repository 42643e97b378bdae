-- ===== src/Exports/Streaming/Delivery.antt =====
-- A body that is streamed and a body that is read as a whole.
use mantalon.Base.{
  suc, List, [], ◌∷◌, ◌++◌, some, Text, length, concat, ◌≡◌, ◌↔◌, refl, ap, ◌∙◌, inl, inr,
  Option-cases,
}
use mantalon.Fetch.{Chunk, data_, trailers, failed, read_entire_body}
use mantalon.Exports.Streaming.{Pulled, closed, enqueued, pull, pulls}

-- Bytes, and then the end of the stream.
abbrev pub delivers : List Text → List Pulled
delivers [] = closed ∷ []
delivers (piece ∷ pieces) = enqueued piece ∷ delivers pieces

pulls-delivers :
    (chunks : List Chunk) (body : Text)
    → read_entire_body chunks ≡ some body
    → (pieces : List Text) × ((pulls (suc (length chunks)) chunks ≡ delivers pieces)
        × (concat pieces ≡ body))
unfolding pulls pull read_entire_body
pulls-delivers [] body = λ h. ([], (refl, cc))
pulls-delivers (trailers ∷ chunks) body = λ h. cc
pulls-delivers (failed ∷ chunks) body = λ h. cc
pulls-delivers (data_ bytes ∷ chunks) body = elim (Option-cases (read_entire_body chunks)) [
  | inl x ↦ rw x (λ h. cc)
  | inr (rest, x) ↦ rw x (λ h.
      let (pieces, (e, same)) = pulls-delivers chunks rest x in
      let whole : bytes ++ rest ≡ body = cc in
      (bytes ∷ pieces, (ap (λ l. enqueued bytes ∷ l) e, ap (λ l. bytes ++ l) same ∙ whole)))
]

delivers-pulls :
    (chunks : List Chunk) (pieces : List Text)
    → pulls (suc (length chunks)) chunks ≡ delivers pieces
    → read_entire_body chunks ≡ some (concat pieces)
unfolding pulls pull read_entire_body
delivers-pulls [] [] h = refl
delivers-pulls [] (piece ∷ pieces) h = cc
delivers-pulls (trailers ∷ chunks) [] h = cc
delivers-pulls (trailers ∷ chunks) (piece ∷ pieces) h = cc
delivers-pulls (failed ∷ chunks) [] h = cc
delivers-pulls (failed ∷ chunks) (piece ∷ pieces) h = cc
delivers-pulls (data_ bytes ∷ chunks) [] h = cc
delivers-pulls (data_ bytes ∷ chunks) (piece ∷ pieces) h =
    let same : bytes ≡ piece = cc in
    let later : pulls (suc (length chunks)) chunks ≡ delivers pieces = cc in
    rw (delivers-pulls chunks pieces later) (ap (λ b. some (b ++ concat pieces)) same)

-- The page gets the same bytes of a body whether it is streamed or read as a whole: the stream ends
-- regularly, with pieces that make up these bytes, exactly when the body can be read as a whole and
-- is these bytes.
pub pulls-read_entire_body :
    (chunks : List Chunk) (body : Text)
    → (read_entire_body chunks ≡ some body) ↔ (
        (pieces : List Text) × ((pulls (suc (length chunks)) chunks ≡ delivers pieces)
          × (concat pieces ≡ body)))
pulls-read_entire_body chunks body = (
  pulls-delivers chunks body,
  λ (pieces, (e, same)). delivers-pulls chunks pieces e ∙ ap some same,
)
