-- ===== src/Prelude/Digits.antt =====
-- Numbers as `Display` and `LowerHex` print them.
use Prim.Native.Nat.{ℕ, zero, suc, ◌+◌, ◌/◌, ◌%◌}
use mathlib.Core.Path.{◌≡◌, refl}
use mathlib.Core.List.{[], ◌∷◌, ◌++◌}
use pg_ask.Prelude.Tests.{ltb, if◌then◌else◌}
use pg_ask.Prelude.Strings.{Text, codes}

abbrev digit : ℕ → ℕ
digit d = if ltb d 10 then d + 48 else d + 87

-- The digits of `n`, on fuel: `n + 1` is enough, since each round divides.
digits_within : ℕ → ℕ → ℕ → Text
digits_within zero base n = []
digits_within (suc fuel) base n =
    let front = digits_within fuel base (n / base) in
    if ltb n base then digit n ∷ [] else front ++ digit (n % base) ∷ []

-- `{n}`
unfoldable pub decimal : ℕ → Text
unfolding digits_within
decimal n = digits_within (n + 1) 10 n

-- `{n:x}`
unfoldable pub hex : ℕ → Text
unfolding digits_within
hex n = digits_within (n + 1) 16 n

digits_test : (decimal 1203 ≡ codes "1203") × (hex 0xfe80 ≡ codes "fe80") × (decimal 0 ≡ codes "0")
unfolding decimal hex
digits_test = (refl, refl, refl)
