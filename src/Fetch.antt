-- ===== src/Fetch.antt =====
-- `proxied_fetch_with_global_cookies` and `read_entire_body` of mantalon-client/src/lib.rs: how a
-- request goes through the cookie store and the pool, and how a body is read.
pub mod Answers
pub mod Bodies
pub mod Session
use mantalon.Base.{List, [], ◌∷◌, ◌++◌, Option, none, some, Text, Result, err, ok}
use mantalon.Http.{Http, Request, Response}
use mantalon.Pool.{Net, Pool, Others, SendRequestError, send_request}
use mantalon.Cookies.{CookieCrate, CookieStore, add_cookies, store_cookies}

-- What a body gives in turn: bytes, a frame of trailers, or an error. The list ends where
-- `is_end_stream` says so or no frame comes.
pub data Chunk : Type 0 where
  data_ : Text → Chunk
  trailers failed : Chunk

unfoldable pub read_entire_body : List Chunk → Option Text
read_entire_body [] = some []
read_entire_body (data_ bytes ∷ chunks) = elim (read_entire_body chunks) [
  | none ↦ none
  | some rest ↦ some (bytes ++ rest)
]
read_entire_body (trailers ∷ chunks) = none
read_entire_body (failed ∷ chunks) = none

module _ {http : Http} {Body Incoming : Type 0} (crate_ : CookieCrate)
    (net : Net http Body Incoming) (self_origin : Text) where
  open net use {Sender, Error}

  -- The request as it is sent: without the cookies where they cannot be added.
  unfoldable pub with_cookies : CookieStore http crate_ → Request http Body → Request http Body
  with_cookies store request = elim (add_cookies http crate_ store request) [
    | err e ↦ request
    | ok sent ↦ sent
  ]

  -- The store, the pool and the answer behind a fetch. `meanwhile` is what other tasks do to the
  -- store before the response is there, and `others` what they do to the pool.
  unfoldable pub proxied_fetch_with_global_cookies :
      (meanwhile : CookieStore http crate_ → CookieStore http crate_)
      → Others Sender
      → Request http Body
      → CookieStore http crate_
      → Pool Sender
      → CookieStore http crate_
        × Pool Sender
        × Result (SendRequestError Error) (Response http Incoming)
  proxied_fetch_with_global_cookies meanwhile others request store pool =
      let (pool', answer) = send_request net self_origin others (with_cookies store request) pool in
      elim answer [
        | err e ↦ (meanwhile store, pool', err e)
        | ok response ↦ (
          (store_cookies http crate_ request.uri response (meanwhile store)).0,
          pool',
          ok response,
        )
      ]
