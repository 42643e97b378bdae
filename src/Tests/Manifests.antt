-- ===== src/Tests/Manifests.antt =====
-- The manifest.
use mantalon.Base.{[], ◌∷◌, none, some, true, Text, ok, codes, starts_with, ◌≡◌, refl}
use mantalon.Http.Toy.{toy, UriParts}
use mantalon.ContentEdit.{ContentEdit, Manifest, ParsedManifest}
use mantalon.Setup.{
  Patterns, wildcard_edit, parse_base, parse_manifest, get_content_edit, parse_edits, parse_edit,
  parsed_edit, parse_matches, parse_override, parse_root, find_edit,
}
use mantalon.Setup.Settings.{IsAt, IsFirst, IsSetBy, get_content_edit-IsFirst}

-- URLs that are texts, and patterns that are prefixes; the empty one is the wildcard.
abbrev pub prefixes : Patterns
prefixes = record {
  Url = Text;
  UrlPattern = Text;
  parse_url = some;
  wildcard = [];
  parse_pattern = λ pattern_ base. some pattern_;
  test = λ pattern_ url. starts_with url pattern_;
  test-wildcard = λ url. refl;
}

abbrev pub news_edit : ContentEdit
news_edit = record wildcard_edit { matches = codes "/news" ∷ []; https_only = some true }

abbrev pub manifest : Manifest
manifest = record {
  domains = codes "a.org" ∷ [];
  lock_browsing = some true;
  https_only = none;
  rewrite_location = none;
  js_redirect = none;
  content_edits = news_edit ∷ [];
}

abbrev uri_of_path : Text → UriParts
uri_of_path path = record { scheme = none; authority = none; path_and_query = some path }

abbrev root : ParsedManifest toy Text
root = parse_root toy prefixes manifest

abbrev base : Text
base = codes "https://a.org/"

abbrev parsed : ParsedManifest toy Text
parsed = record root {
  content_edits =
      parsed_edit toy prefixes root base news_edit none
      ∷ parsed_edit toy prefixes root base wildcard_edit none
      ∷ [];
}

loads : parse_manifest toy prefixes manifest ≡ ok parsed
unfolding parse_manifest parse_base parse_edits parse_edit parse_override
loads = refl

looked_up :
    get_content_edit toy prefixes parsed (uri_of_path (codes "/news/1"))
    ≡ some (0, parsed_edit toy prefixes root base news_edit none)
unfolding get_content_edit find_edit parsed_edit parse_matches
looked_up = refl

get_content_edit-IsFirst_example :
    (url : Text) × (edit : ContentEdit) × ((prefixes.parse_url
          (toy.uri_to_string (uri_of_path (codes "/news/1")))
        ≡ some url)
      × IsFirst toy prefixes 0 parsed.content_edits url
          (parsed_edit toy prefixes root base news_edit none)
      × IsAt 0 (news_edit ∷ wildcard_edit ∷ []) edit
      × IsSetBy toy prefixes manifest edit (parsed_edit toy prefixes root base news_edit none))
get_content_edit-IsFirst_example =
    get_content_edit-IsFirst toy prefixes manifest parsed (uri_of_path (codes "/news/1")) 0
      (parsed_edit toy prefixes root base news_edit none) loads looked_up
