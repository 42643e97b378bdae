-- ===== src/Tests/Orders.antt =====
-- Two orders of the maps of one edit.
use mantalon.Base.{[], ◌∷◌, Text, codes, ◌≡◌, refl, arith, eqb_iff}
use mantalon.Http.Toy.{toy}
use mantalon.ContentEdit.{ParsedContentEdit}
use mantalon.Headers.Orders.{SameSet, SameMap, SameRenames, SameEdits}
use mantalon.RequestEdit.{apply_on_request}
use mantalon.ResponseEdit.{apply_on_response}
use mantalon.Iteration.{SameEdit, see_request, see_response, edits-same}
use mantalon.Tests.Edits.{edit, request, located, domains, origin}

abbrev p : Text
p = codes "p"

abbrev q : Text
q = codes "q"

-- Headers that are removed, set and renamed, in one order and in the other.
abbrev one : ParsedContentEdit toy Text
one = record edit {
  remove_request_headers = p ∷ q ∷ [];
  insert_headers = (p, codes "1") ∷ (q, codes "2") ∷ [];
  rename_request_headers = (codes "x", p) ∷ (codes "y", q) ∷ [];
}

abbrev other : ParsedContentEdit toy Text
other = record edit {
  remove_request_headers = q ∷ p ∷ [];
  insert_headers = (q, codes "2") ∷ (p, codes "1") ∷ [];
  rename_request_headers = (codes "y", q) ∷ (codes "x", p) ∷ [];
}

removes : SameSet toy (p ∷ q ∷ []) (q ∷ p ∷ [])
removes j = ground arith

inserts : SameMap toy ((p, codes "1") ∷ (q, codes "2") ∷ []) ((q, codes "2") ∷ (p, codes "1") ∷ [])
inserts j = ground (arith, eqb_iff p j, eqb_iff q j)

renames :
    SameRenames toy ((codes "x", p) ∷ (codes "y", q) ∷ []) ((codes "y", q) ∷ (codes "x", p) ∷ [])
renames j = (ground (arith, eqb_iff p j, eqb_iff q j), ground arith)

request_edits :
    SameEdits toy one.remove_request_headers other.remove_request_headers [] [] [] []
      one.rename_request_headers other.rename_request_headers
request_edits = record {
  removes = removes;
  inserts = λ j. refl;
  appends = λ j. refl;
  renames = renames;
  apart = (refl, refl, refl, refl, refl, (refl, refl, refl, refl, refl, tt));
  apart' = (refl, refl, refl, refl, refl, (refl, refl, refl, refl, refl, tt));
}

response_edits : SameEdits toy [] [] one.insert_headers other.insert_headers [] [] [] []
response_edits = record {
  removes = λ j. refl;
  inserts = inserts;
  appends = λ j. refl;
  renames = λ j. (refl, refl);
  apart = tt;
  apart' = tt;
}

same : SameEdit toy one other
same = record {
  https_only = refl;
  override_uri = refl;
  rewrite_location = refl;
  request = request_edits;
  response = response_edits;
}

edits-same_example :
    (see_request toy Text (apply_on_request toy one request)
      ≡ see_request toy Text (apply_on_request toy other request))
    × (see_response toy Text (apply_on_response toy domains origin one (located (codes "a.org/b")))
        ≡ see_response toy Text
            (apply_on_response toy domains origin other (located (codes "a.org/b"))))
edits-same_example =
    edits-same toy one other same request domains origin (located (codes "a.org/b"))
