-- ===== src/MantalonBody.antt =====
-- `MantalonBody` of mantalon-client/src/body.rs, the body of a request, and what hyper gets when it
-- polls it. The promise of a read of a stream is seen through what its polls find.
pub mod Frames
use mantalon.Base.{ℕ, zero, suc, List, [], ◌∷◌, Option, none, some, Text}

-- What a poll of `fut` finds: nothing yet, the bytes of a chunk, the end of the stream (a `value`
-- that is undefined), a result that is no object, has no `value` or whose `value` is no
-- `Uint8Array`, or a rejection.
pub data StreamPoll : Type 0 where
  waits done not_an_object without_value not_bytes rejected : StreamPoll
  chunk : Text → StreamPoll

-- The reader of a stream stands for the polls that are still to come.
pub data MantalonBody : Type 0 where
  empty : MantalonBody
  known : Option Text → MantalonBody
  readable_stream : List StreamPoll → MantalonBody

pub data FramePoll : Type 0 where
  pending end_of_body js_error panicked : FramePoll
  frame : Text → FramePoll

-- `MantalonBody::from` of a stream: the first read is started.
unfoldable pub from_stream : List StreamPoll → MantalonBody
from_stream polls = readable_stream polls

-- `poll_frame`. A read that has ended is replaced by the next one, and one that was rejected stays;
-- the three `expect`s are panics.
unfoldable pub poll_frame : MantalonBody → MantalonBody × FramePoll
poll_frame empty = (empty, end_of_body)
poll_frame (known (some bytes)) = (known none, frame bytes)
poll_frame (known none) = (known none, end_of_body)
poll_frame (readable_stream []) = (readable_stream [], pending)
poll_frame (readable_stream (waits ∷ polls)) = (readable_stream polls, pending)
poll_frame (readable_stream (chunk bytes ∷ polls)) = (readable_stream polls, frame bytes)
poll_frame (readable_stream (done ∷ polls)) = (readable_stream polls, end_of_body)
poll_frame (readable_stream (not_an_object ∷ polls)) = (readable_stream polls, panicked)
poll_frame (readable_stream (without_value ∷ polls)) = (readable_stream polls, panicked)
poll_frame (readable_stream (not_bytes ∷ polls)) = (readable_stream polls, panicked)
poll_frame (readable_stream (rejected ∷ polls)) = (readable_stream polls, js_error)

-- Polls one after the other, with what each of them returns.
unfoldable pub poll_frames : ℕ → MantalonBody → MantalonBody × List FramePoll
poll_frames zero body = (body, [])
poll_frames (suc n) body =
    let (body', poll) = poll_frame body in
    let (body'', polls) = poll_frames n body' in (body'', poll ∷ polls)
