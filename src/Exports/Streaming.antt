-- ===== src/Exports/Streaming.antt =====
-- The `pull` of the stream that `proxiedFetch` makes of a body which is not edited.
pub mod Delivery
use mantalon.Base.{ℕ, zero, suc, List, [], ◌∷◌, Text}
use mantalon.Fetch.{Chunk, data_, trailers, failed}

-- What the browser gets of a call: bytes for its queue, the end, or a rejection.
pub data Pulled : Type 0 where
  closed broken : Pulled
  enqueued : Text → Pulled

unfoldable pub pull : List Chunk → List Chunk × Pulled
pull [] = ([], closed)
pull (data_ bytes ∷ chunks) = (chunks, enqueued bytes)
pull (trailers ∷ chunks) = (chunks, broken)
pull (failed ∷ chunks) = (chunks, broken)

-- The browser pulls again after bytes, and no more after the end or a rejection.
unfoldable pub pull_again : Pulled → List Pulled → List Pulled
pull_again (enqueued bytes) later = enqueued bytes ∷ later
pull_again pulled later = pulled ∷ []

unfoldable pub pulls : ℕ → List Chunk → List Pulled
unfolding pull_again
pulls zero chunks = []
pulls (suc n) chunks =
    let (rest, pulled) = pull chunks in let later = pulls n rest in pull_again pulled later
