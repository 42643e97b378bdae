-- ===== src/Exports/Proxied/Redirects.antt =====
-- The headers of the page that redirects by a script.
use mantalon.Base.{List, Option, none, some, Text, codes, decimal, length, ◌≡◌, ◌∙◌, arith}
use mantalon.Http.{Http}
use mantalon.Setup.{Patterns}
use mantalon.Exports.Proxied.{Browser, redirect_code, redirect_headers}

module _ (browser : Browser) (redirect_page : Text) (http : Http) (patterns : Patterns) (E : Type 0)
    (load : Text → Option Text) (lock_script : Text) (domains : List Text)
    (self_origin : Text) where
  open browser use {JsHeaders, new_headers, get, accepts_status}

  -- The headers of a page that redirects by a script.
  pub record IsRedirecting (location : Text) (before after : JsHeaders) : Type 0 where
    pub no_location : get after (codes "location") ≡ none
    pub told : get after (codes "x-mantalon-location") ≡ some location
    pub sized :
        get after (codes "content-length")
        ≡ some (
            decimal (
              length (
                redirect_code http patterns browser E load lock_script redirect_page domains
                  self_origin location)))
    pub typed : get after (codes "content-type") ≡ some (codes "text/html")

  pub redirect_headers-IsRedirecting :
      (location : Text) (headers : JsHeaders)
      → IsRedirecting location headers (
          redirect_headers http patterns browser E load lock_script redirect_page domains
            self_origin location headers)
  unfolding redirect_headers
  redirect_headers-IsRedirecting location headers =
      let length_text = decimal (
        length (
          redirect_code http patterns browser E load lock_script redirect_page domains self_origin
            location)) in
      let sized = browser.set headers (codes "content-length") length_text in
      let deleted = browser.delete sized (codes "location") in
      let told = browser.set deleted (codes "x-mantalon-location") location in
      let html = codes "text/html" in
      let typed = λ (j : Text). browser.get-set told (codes "content-type") html j in
      let told_ = λ (j : Text). browser.get-set deleted (codes "x-mantalon-location") location j in
      let gone = λ (j : Text). browser.get-delete sized (codes "location") j in
      record {
        no_location =
            typed (codes "location") (omega arith) (omega arith)
            ∙ told_ (codes "location") (omega arith) (omega arith)
            ∙ gone (codes "location") (omega arith) (omega arith);
        told =
            typed (codes "x-mantalon-location") (omega arith) (omega arith)
            ∙ told_ (codes "x-mantalon-location") (omega arith) (omega arith);
        sized =
            typed (codes "content-length") (omega arith) (omega arith)
            ∙ told_ (codes "content-length") (omega arith) (omega arith)
            ∙ gone (codes "content-length") (omega arith) (omega arith)
            ∙ browser.get-set headers (codes "content-length") length_text (codes "content-length")
                (omega arith) (omega arith);
        typed = typed (codes "content-type") (omega arith) (omega arith);
      }
