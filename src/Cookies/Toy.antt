-- ===== src/Cookies/Toy.antt =====
-- A small `cookie` crate for the tests: a cookie is its name, its value and its domain, and a jar is
-- the list of the cookies that were added, the newest first.
use mantalon.Base.{
  List, [], ◌∷◌, ◌++◌, Option, none, some, false, Text, ◌≡◌, ◌↔◌, refl, codes, eqb, eqb_iff,
  if◌then◌else◌, ◌==◌, arith,
}
use mantalon.Cookies.{CookieCrate, IsIn}

pub record ToyCookie : Type 0 where
  pub name : Text
  pub value : Text
  pub domain : Option Text

abbrev Jar : Type 0
Jar = List ToyCookie

abbrev find : Jar → Text → Option ToyCookie
find [] n = none
find (c ∷ jar) n = if eqb c.name n then some c else find jar n

abbrev without : Text → Jar → Jar
without n [] = []
without n (c ∷ jar) = let rest = without n jar in if eqb c.name n then rest else c ∷ rest

abbrev newest : Jar → List ToyCookie
newest [] = []
newest (c ∷ jar) = c ∷ without c.name (newest jar)

IsIn-without :
    (n : Text) (jar : Jar) (c : ToyCookie)
    → IsIn c (without n jar) ↔ (IsIn c jar × (eqb c.name n ≡ false))
IsIn-without n [] c = ground arith
IsIn-without n (x ∷ jar) c = ground (arith, IsIn-without n jar c)

pub IsIn-newest : (jar : Jar) (c : ToyCookie) → IsIn c (newest jar) ↔ (find jar c.name ≡ some c)
IsIn-newest [] c = ground arith
IsIn-newest (x ∷ jar) c = ground (
  arith,
  IsIn-newest jar c,
  IsIn-without x.name (newest jar) c,
  eqb_iff x.name c.name,
  eqb_iff c.name x.name,
)

pub find_name : (jar : Jar) (n : Text) (c : ToyCookie) → find jar n ≡ some c → c.name ≡ n
find_name [] n c h = cc
find_name (x ∷ jar) n c h = ground (arith, find_name jar n c, eqb_iff x.name n)

-- `name` or `name=value`
abbrev name_of : Text → Text
name_of [] = []
name_of (x ∷ s) = if x == b'=' then [] else x ∷ name_of s

abbrev value_of : Text → Text
value_of [] = []
value_of (x ∷ s) = if x == b'=' then s else value_of s

abbrev printed : ToyCookie → Text
printed c = c.name ++ codes "=" ++ c.value

abbrev pub toy_crate : CookieCrate
toy_crate = record {
  Cookie = ToyCookie;
  CookieJar = Jar;
  name = λ c. c.name;
  domain = λ c. c.domain;
  path = λ c. none;
  encoded = printed;
  stripped_encoded = printed;
  parse_encoded = λ s. some (record { name = name_of s; value = value_of s; domain = none });
  new = λ n v. record { name = n; value = v; domain = none };
  set_value = λ c v. record c { value = v };
  empty_jar = [];
  add = λ jar c. c ∷ jar;
  get = find;
  iter = newest;
  name-new = λ n v. refl;
  name-set_value = λ c v. refl;
  get-empty_jar = λ n. refl;
  get-add = λ jar c n. refl;
  get_name = find_name;
  iter_iff = IsIn-newest;
}
