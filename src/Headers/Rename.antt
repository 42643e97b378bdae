-- ===== src/Headers/Rename.antt =====
-- What the loop over the renames does to the headers that it names.
use mantalon.Base.{List, [], ◌∷◌, Bool, true, false, ◌≡◌, ◌≢◌, ◌||◌, arith}
use mantalon.Http.{Http}
use mantalon.Headers.{rename, rename_all}
use mantalon.Headers.Views.{get_all-rename, head?-none}

module _ (http : Http) where
  open http use {HeaderName, HeaderValue, HeaderMap, get_all, name_eq, name_eq_iff}

  abbrev pub is_source : List (HeaderName × HeaderName) → HeaderName → Bool
  is_source [] j = false
  is_source ((a, b) ∷ pairs) j = name_eq a j || is_source pairs j

  abbrev pub is_target : List (HeaderName × HeaderName) → HeaderName → Bool
  is_target [] j = false
  is_target ((a, b) ∷ pairs) j = name_eq b j || is_target pairs j

  stays_empty :
      (pairs : List (HeaderName × HeaderName)) (m : HeaderMap) (j : HeaderName)
      → is_target pairs j ≡ false
      → get_all m j ≡ []
      → get_all (rename_all http pairs m) j ≡ []
  unfolding rename_all
  stays_empty [] m j h e = e
  stays_empty ((a, b) ∷ pairs) m j h e =
      ground (arith, stays_empty pairs (rename http a b m) j, get_all-rename http a b m j)

  pub rename_source_gone :
      (a b : HeaderName) (m : HeaderMap) → name_eq b a ≡ false → get_all (rename http a b m) a ≡ []
  rename_source_gone a b m h =
      ground (arith, get_all-rename http a b m a, name_eq_iff a a, head?-none http (get_all m a))

  -- However the renames are ordered, a header that is the source of one and the target of none is
  -- gone at the end.
  rename_all-source :
      (pairs : List (HeaderName × HeaderName)) (m : HeaderMap) (j : HeaderName)
      → is_source pairs j ≡ true
      → is_target pairs j ≡ false
      → get_all (rename_all http pairs m) j ≡ []
  unfolding rename_all
  rename_all-source [] m j s t = cc
  rename_all-source ((a, b) ∷ pairs) m j s t = ground (
    arith,
    rename_all-source pairs (rename http a b m) j,
    stays_empty pairs (rename http a b m) j,
    name_eq_iff a j,
    rename_source_gone a b m,
  )

  -- Two renames in a row, `a` to `b` and `b` to `c`, take a header through both names or stop at
  -- the first, as the map that holds them is iterated: with one value under `a` and none under
  -- `b`, the value ends under `c` in one order and under `b` in the other.
  pub rename_all_order :
      (a b c : HeaderName) (v : HeaderValue) (m : HeaderMap)
      → a ≢ b
      → b ≢ c
      → get_all m a ≡ v ∷ []
      → get_all m b ≡ []
      → (get_all (rename_all http ((a, b) ∷ (b, c) ∷ []) m) c ≡ v ∷ [])
        × (get_all (rename_all http ((b, c) ∷ (a, b) ∷ []) m) b ≡ v ∷ [])
        × (get_all (rename_all http ((a, b) ∷ (b, c) ∷ []) m) b ≡ [])
  unfolding rename_all
  rename_all_order a b c v m ab bc ha hb = (
    ground (
      arith,
      get_all-rename http b c (rename http a b m) c,
      get_all-rename http a b m b,
      name_eq_iff b b,
      name_eq_iff c c,
      name_eq_iff a b,
    ),
    ground (
      arith,
      get_all-rename http a b (rename http b c m) b,
      get_all-rename http b c m a,
      name_eq_iff b b,
      name_eq_iff c c,
      name_eq_iff a b,
    ),
    ground (
      arith,
      get_all-rename http b c (rename http a b m) b,
      get_all-rename http a b m b,
      name_eq_iff b b,
      name_eq_iff c b,
      name_eq_iff a b,
    ),
  )
