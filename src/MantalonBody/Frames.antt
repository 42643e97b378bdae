-- ===== src/MantalonBody/Frames.antt =====
-- The bytes that a body gives, over any number of polls.
use mantalon.Base.{
  ℕ, zero, suc, List, [], ◌∷◌, ◌++◌, none, some, Text, ◌≡◌, refl, ap, ◌∙◌, append_assoc, append-nil,
}
use mantalon.MantalonBody.{
  StreamPoll, waits, done, not_an_object, without_value, not_bytes, rejected, chunk, MantalonBody,
  empty, known, readable_stream, FramePoll, frame, poll_frame, poll_frames,
}

-- The bytes that a body still holds, and those that a poll has given.
abbrev pub chunks : List StreamPoll → Text
chunks [] = []
chunks (chunk bytes ∷ polls) = bytes ++ chunks polls
chunks (waits ∷ polls) = chunks polls
chunks (done ∷ polls) = chunks polls
chunks (not_an_object ∷ polls) = chunks polls
chunks (without_value ∷ polls) = chunks polls
chunks (not_bytes ∷ polls) = chunks polls
chunks (rejected ∷ polls) = chunks polls

abbrev pub content : MantalonBody → Text
content empty = []
content (known none) = []
content (known (some bytes)) = bytes
content (readable_stream polls) = chunks polls

abbrev pub given : FramePoll → Text
given (frame bytes) = bytes
given _ = []

abbrev pub all_given : List FramePoll → Text
all_given [] = []
all_given (poll ∷ polls) = given poll ++ all_given polls

poll_frame-content :
    (body : MantalonBody) → given (poll_frame body).1 ++ content (poll_frame body).0 ≡ content body
unfolding poll_frame
poll_frame-content empty = refl
poll_frame-content (known none) = refl
poll_frame-content (known (some bytes)) = append-nil bytes
poll_frame-content (readable_stream []) = refl
poll_frame-content (readable_stream (waits ∷ polls)) = refl
poll_frame-content (readable_stream (chunk bytes ∷ polls)) = refl
poll_frame-content (readable_stream (done ∷ polls)) = refl
poll_frame-content (readable_stream (not_an_object ∷ polls)) = refl
poll_frame-content (readable_stream (without_value ∷ polls)) = refl
poll_frame-content (readable_stream (not_bytes ∷ polls)) = refl
poll_frame-content (readable_stream (rejected ∷ polls)) = refl

-- However often a body is polled, the bytes of the frames that it has given, followed by those that
-- it still holds, are the bytes that it held at first: none is lost, doubled or moved.
poll_frames-content :
    (n : ℕ) (body : MantalonBody)
    → all_given (poll_frames n body).1 ++ content (poll_frames n body).0 ≡ content body
unfolding poll_frames
poll_frames-content zero body = refl
poll_frames-content (suc n) body =
    append_assoc (given (poll_frame body).1) (all_given (poll_frames n (poll_frame body).0).1)
      (content (poll_frames n (poll_frame body).0).0)
    ∙ ap (λ l. given (poll_frame body).1 ++ l) (poll_frames-content n (poll_frame body).0)
    ∙ poll_frame-content body
