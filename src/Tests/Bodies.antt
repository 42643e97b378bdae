-- ===== src/Tests/Bodies.antt =====
-- The arguments of `proxiedFetch`, and the bodies of the client.
use mantalon.Base.{suc, length, concat, List, [], ◌∷◌, none, some, Text, codes, ◌≡◌, ◌↔◌}
use mantalon.Http.Toy.{toy}
use mantalon.Fetch.{Chunk, data_, read_entire_body}
use mantalon.MantalonBody.{MantalonBody, readable_stream, waits, chunk, done}
use mantalon.Exports.Inputs.{Resource, request_resource, url_options, text_value, read_inputs}
use mantalon.Exports.Inputs.Precedence.{decided, read_inputs_lem}
use mantalon.Exports.Streaming.{pulls}
use mantalon.Exports.Streaming.Delivery.{delivers, pulls-read_entire_body}

abbrev streamed_body : MantalonBody
streamed_body = readable_stream (waits ∷ chunk (1 ∷ []) ∷ chunk (2 ∷ []) ∷ done ∷ [])

abbrev chunks : List Chunk
chunks = data_ (1 ∷ []) ∷ data_ (2 ∷ []) ∷ []

pulls-read_entire_body_example : (read_entire_body chunks ≡ some (1 ∷ 2 ∷ [])) ↔ (
    (pieces : List Text) × ((pulls (suc (length chunks)) chunks ≡ delivers pieces)
      × (concat pieces ≡ 1 ∷ 2 ∷ [])))
pulls-read_entire_body_example = pulls-read_entire_body chunks (1 ∷ 2 ∷ [])

abbrev form : Resource
form = request_resource (record {
  method = codes "POST";
  url = codes "a.org/form";
  headers = text_value [];
  body = none;
  array_buffer = some (7 ∷ []);
})

read_inputs_lem_example :
    read_inputs toy form (url_options (codes "b.org/"))
    ≡ decided toy form (url_options (codes "b.org/"))
read_inputs_lem_example = read_inputs_lem toy form (url_options (codes "b.org/"))
