-- ===== src/Cookies/Lines.antt =====
-- Lines that are joined are read back.
use mantalon.Base.{
  ℕ, List, [], ◌∷◌, ◌++◌, false, Text, join, IsFree, All, append_assoc, append-nil, ◌==◌, ==_iff,
  ◌≡◌, ◌≢◌, refl, sym, ap, ◌∙◌, arith,
}
use mantalon.Cookies.{lines, lines_from, without_return}

-- A text on one line, and not an empty one.
abbrev pub IsLine : Text → Type 0
IsLine s = (s ≢ []) × IsFree b'\n' s × IsFree b'\r' s

without_return-same : (s : Text) → IsFree b'\r' s → without_return s ≡ s
without_return-same [] h = refl
without_return-same (x ∷ []) (h, _) = ground (arith, ==_iff x b'\r')
without_return-same (x ∷ y ∷ s) (_, h) = ap (λ l. x ∷ l) (without_return-same (y ∷ s) h)

differs : (x c : ℕ) → x ≢ c → (x == c) ≡ false
differs x c h = ground (arith, ==_iff x c)

lines_from-ended :
    (begun s rest : Text)
    → IsFree b'\n' s
    → lines_from begun (s ++ b'\n' ∷ rest) ≡ without_return (begun ++ s) ∷ lines_from [] rest
unfolding lines_from
lines_from-ended [] [] rest h = refl
lines_from-ended (b ∷ begun) [] rest h =
    ap (λ l. without_return l ∷ lines_from [] rest) (sym (append-nil (b ∷ begun)))
lines_from-ended begun (x ∷ s) rest (ne, h) = rw (differs x b'\n' ne) (
    lines_from-ended (begun ++ x ∷ []) s rest h
    ∙ ap (λ l. without_return l ∷ lines_from [] rest) (append_assoc begun (x ∷ []) s))

lines_from-last :
    (begun s : Text) → IsFree b'\n' s → begun ++ s ≢ [] → lines_from begun s ≡ (begun ++ s) ∷ []
unfolding lines_from
lines_from-last [] [] h ne = absurd (ne refl)
lines_from-last (b ∷ begun) [] h ne = ap (λ l. l ∷ []) (sym (append-nil (b ∷ begun)))
lines_from-last begun (x ∷ s) (h, hs) ne = rw (differs x b'\n' h) (
    lines_from-last (begun ++ x ∷ []) s hs (λ e. ne (sym (append_assoc begun (x ∷ []) s) ∙ e))
    ∙ ap (λ l. l ∷ []) (append_assoc begun (x ∷ []) s))

pub lines-join : (texts : List Text) → All IsLine texts → lines (join texts (b'\n' ∷ [])) ≡ texts
unfolding lines
lines-join [] h = refl
lines-join (s ∷ []) ((ne, free, _), _) = lines_from-last [] s free ne
lines-join (s ∷ t ∷ texts) ((ne, free, no_return), h) =
    lines_from-ended [] s (join (t ∷ texts) (b'\n' ∷ [])) free
    ∙ ap (λ l. l ∷ lines_from [] (join (t ∷ texts) (b'\n' ∷ []))) (without_return-same s no_return)
    ∙ ap (λ l. s ∷ l) (lines-join (t ∷ texts) h)
