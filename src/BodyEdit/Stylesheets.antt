-- ===== src/BodyEdit/Stylesheets.antt =====
-- Where the stylesheets of an edit end up in the page.
use mantalon.Base.{
  ℕ, ◌+◌, ◌-◌, ◌≤◌, ◌++◌, none, some, Text, ◌≡◌, refl, sym, ap, ◌∙◌, length, drop, length-append,
  take-append_length, append_assoc, arith, codes, drop-append_add, drop-append_of_le, length-drop,
  subst, Option-cases, inl, inr,
}
use mantalon.Substitution.{search_haystack, splice}
use mantalon.Substitution.Search.{
  OccursAt, search_haystack-eq-some_iff, search_haystack-eq-none_iff,
}
use mantalon.BodyEdit.{stylesheet_link, insert_stylesheet}

abbrev head_end : Text
head_end = codes "</head>"

OccursAt-shift :
    (needle pre post : Text) (j : ℕ)
    → OccursAt needle post j
    → OccursAt needle (pre ++ post) (length pre + j)
OccursAt-shift needle pre post j (before, after, l, e) = (
  pre ++ before,
  after,
  omega (arith, length-append pre before),
  ap (λ t. pre ++ t) e ∙ sym (append_assoc pre before (needle ++ after)),
)

drop-behind : (pre post : Text) → drop (length pre + 7) (pre ++ (head_end ++ post)) ≡ post
drop-behind pre post = drop-append_add pre (head_end ++ post) 7 (length pre + 7) refl

-- With one closing head tag in the body, the link of the stylesheet takes its place.
insert_stylesheet-single :
    (css_path pre post : Text)
    → ((i : ℕ) → OccursAt (codes "</head>") (pre ++ (codes "</head>" ++ post)) i → i ≡ length pre)
    → insert_stylesheet css_path (pre ++ (codes "</head>" ++ post))
      ≡ pre ++ (stylesheet_link css_path ++ post)
unfolding insert_stylesheet splice
insert_stylesheet-single css_path pre post single =
    let body = pre ++ (head_end ++ post) in
    let first : search_haystack head_end body ≡ some (length pre) =
      (search_haystack-eq-some_iff head_end body (length pre)).1 (
        (pre, post, refl, refl),
        λ j occurs. let same : j ≡ length pre = single j occurs in omega arith,
      ) in
    let alone : search_haystack head_end post ≡ none =
      (search_haystack-eq-none_iff head_end post).1 λ j occurs.
        let shifted : OccursAt head_end body (length (pre ++ head_end) + j) =
          subst (λ t. OccursAt head_end t (length (pre ++ head_end) + j))
            (append_assoc pre head_end post)
            (OccursAt-shift head_end (pre ++ head_end) post j occurs) in
        let same : length (pre ++ head_end) + j ≡ length pre = single _ shifted in
        omega (arith, length-append pre head_end) in
    let behind : search_haystack head_end (drop (length pre + 7) body) ≡ none =
      rw (drop-behind pre post) alone in
    rw (first, insert_stylesheet)
      (rw (behind, insert_stylesheet)
        (rw (drop-behind pre post, take-append_length pre (head_end ++ post)) refl))

OccursAt-drop :
    (needle xs : Text) (k n : ℕ)
    → n ≤ k
    → OccursAt needle xs k
    → OccursAt needle (drop n xs) (k - n)
OccursAt-drop needle xs k n le (pre, post, l, e) = (
  drop n pre,
  post,
  omega (arith, length-drop n pre),
  rw e (drop-append_of_le n pre (needle ++ post) (omega arith)),
)

OccursAt-search :
    (needle xs : Text) (k : ℕ)
    → OccursAt needle xs k
    → (i : ℕ) × (search_haystack needle xs ≡ some i) × (i ≤ k)
OccursAt-search needle xs k occurs = elim (Option-cases (search_haystack needle xs)) [
  | inl e ↦ absurd ((search_haystack-eq-none_iff needle xs).0 e k occurs)
  | inr (i, e) ↦ (i, e, ((search_haystack-eq-some_iff needle xs i).0 e).1 k occurs)
]

-- With two of them or more the body stays.
insert_stylesheet-ambiguous :
    (css_path pre mid post : Text)
    → insert_stylesheet css_path (pre ++ (codes "</head>" ++ (mid ++ (codes "</head>" ++ post))))
      ≡ pre ++ (codes "</head>" ++ (mid ++ (codes "</head>" ++ post)))
unfolding insert_stylesheet
insert_stylesheet-ambiguous css_path pre mid post =
    let body = pre ++ (head_end ++ (mid ++ (head_end ++ post))) in
    let front = pre ++ (head_end ++ mid) in
    let (i, first, le) =
      OccursAt-search head_end body (length pre) (pre, mid ++ (head_end ++ post), refl, refl) in
    let second : OccursAt head_end body (length front) =
      (front, post, refl, sym (append_assoc pre (head_end ++ mid) (head_end ++ post))) in
    let beyond : i + 7 ≤ length front =
      omega (arith, length-append pre (head_end ++ mid), length-append head_end mid) in
    let (k, again, _) =
      OccursAt-search head_end (drop (i + 7) body) (length front - (i + 7))
        (OccursAt-drop head_end body (length front) (i + 7) beyond second) in
    rw (first, insert_stylesheet) (rw (again, insert_stylesheet) refl)
