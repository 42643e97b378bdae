-- ===== src/BodyEdit/Scripts.antt =====
-- Where the scripts and the stylesheets of an edit end up in the page.
use mantalon.Base.{
  ◌-◌, List, [], ◌∷◌, ◌++◌, false, Text, ◌≡◌, refl, sym, ap, ◌∙◌, ends_with, ends_with_append,
  length, length-append, take-append_length, append_assoc, arith, codes, concat, map,
}
use mantalon.BodyEdit.{before_html_end, insert_js, script_src}

abbrev html_end : Text
html_end = codes "</html>"

before_html_end-append : (tag pre : Text) → before_html_end tag (pre ++ html_end) ≡ pre ++ tag
unfolding before_html_end
before_html_end-append tag pre =
    let kept : length (pre ++ html_end) - 7 ≡ length pre =
      omega (arith, length-append pre html_end) in
    rw (ends_with_append pre html_end, kept, take-append_length pre html_end) refl

abbrev script_element : Text → Text
script_element js_path = codes "<script src=\"/pkg/config/" ++ (js_path ++ codes "\"></script>")

script_src-split : (js_path : Text) → script_src js_path ≡ script_element js_path ++ html_end
script_src-split js_path =
    ap (λ l. codes "<script src=\"/pkg/config/" ++ l)
      (sym (append_assoc js_path (codes "\"></script>") html_end))

-- In a body that ends in the closing html tag, the scripts are put in front of that tag in the
-- order of the list.
insert_js-html_end :
    (js : List Text) (pre : Text)
    → insert_js js (pre ++ codes "</html>")
      ≡ pre ++ (concat (map script_element js) ++ codes "</html>")
unfolding insert_js
insert_js-html_end [] pre = refl
insert_js-html_end (js_path ∷ js) pre =
    ap (insert_js js) (
      before_html_end-append (script_src js_path) pre
      ∙ ap (λ l. pre ++ l) (script_src-split js_path)
      ∙ sym (append_assoc pre (script_element js_path) html_end))
    ∙ insert_js-html_end js (pre ++ script_element js_path)
    ∙ (simp append_assoc)

-- A body that does not end in the closing html tag gets no script.
insert_js-other :
    (js : List Text) (body : Text) → ends_with body html_end ≡ false → insert_js js body ≡ body
unfolding insert_js
insert_js-other [] body h = refl
insert_js-other (js_path ∷ js) body h = rw h (insert_js-other js body h)
