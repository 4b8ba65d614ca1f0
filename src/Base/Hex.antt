-- ===== src/Base/Hex.antt =====
-- EncodeToString and DecodeString of the package encoding/hex.
use Prim.Native.Nat.{ℕ, ◌+◌, ◌-◌, ◌*◌, ◌/◌, ◌%◌, ◌<◌}
use mathlib.Core.Path.{◌≡◌, refl}
use mathlib.Core.Bool.{◌&&◌}
use mathlib.Core.Option.{Option, none, some}
use mathlib.Core.List.{[], ◌∷◌}
use native.Mathlib.Omega.{arith}
use gitclub.Base.Tests.{if◌then◌else◌, leb, ltb}
use gitclub.Base.Lists.{All}
use gitclub.Base.Text.{Str}

abbrev pub hex_digit : ℕ → ℕ
hex_digit n = if ltb n 10 then 48 + n else 87 + n

unfoldable pub hex_encode : Str → Str
hex_encode [] = []
hex_encode (c ∷ s) = hex_digit (c / 16) ∷ hex_digit (c % 16) ∷ hex_encode s

-- Both cases are read.
unfoldable pub from_hex : ℕ → Option ℕ
from_hex c =
    if leb 48 c && leb c 57
    then some (c - 48)
    else if leb 97 c && leb c 102
    then some (c - 87)
    else if leb 65 c && leb c 70
    then some (c - 55)
    else none

abbrev pub put_pair : Option ℕ → Option ℕ → Option Str → Option Str
put_pair (some a) (some b) (some s) = some ((16 * a + b) ∷ s)
put_pair _ _ _ = none

-- none for an odd length or another byte
unfoldable pub hex_decode : Str → Option Str
unfolding from_hex
hex_decode [] = some []
hex_decode (a ∷ []) = none
hex_decode (a ∷ b ∷ s) = put_pair (from_hex a) (from_hex b) (hex_decode s)

abbrev pub AreBytes : Str → Type 0
AreBytes = All (λ c. c < 256)

from_hex-digit : (n : ℕ) → n < 16 → from_hex (hex_digit n) ≡ some n
unfolding from_hex
from_hex-digit n h = ground arith

pub hex_decode-encode : (s : Str) → AreBytes s → hex_decode (hex_encode s) ≡ some s
unfolding hex_decode hex_encode
hex_decode-encode [] h = refl
hex_decode-encode (c ∷ s) h =
    rw
      (
        from_hex-digit (c / 16) (omega (arith, h.0)),
        from_hex-digit (c % 16) (omega arith),
        hex_decode-encode s h.1,
      )
      (ground arith)
