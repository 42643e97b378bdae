-- ===== src/Base/Decimal.antt =====
-- `{n}` in a format string, for a number.
use Prim.Native.Nat.{ℕ, zero, suc, ◌+◌, ◌/◌, ◌%◌}
use mathlib.Core.List.{List, [], ◌∷◌, ◌++◌}
use mantalon.Base.Tests.{ltb, if◌then◌else◌}
use mantalon.Base.Bytes.{Text}

-- Every division by ten makes a number that is not 0 smaller, so that the number itself is enough
-- fuel.
unfoldable pub digits : ℕ → ℕ → Text
digits zero n = []
digits (suc fuel) n =
    let higher = digits fuel (n / 10) in
    let digit = n % 10 + b'0' in if ltb n 10 then digit ∷ [] else higher ++ digit ∷ []

abbrev pub decimal : ℕ → Text
decimal n = digits (suc n) n

abbrev pub decimals : List ℕ → List Text
decimals [] = []
decimals (n ∷ ns) = decimal n ∷ decimals ns
