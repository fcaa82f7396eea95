-- ===== src/Base64/Decode.antt =====
-- The text that RFC 4648 gives to bytes, as its decoder: independent of `b64`.
use httpoll.Prelude.{
  ℕ, ◌+◌, ◌-◌, ◌*◌, ◌/◌, ◌%◌, Bool, ◌&&◌, Option, none, some, [], ◌∷◌, leb, ◌==◌, if◌then◌else◌,
  Bytes,
}

infixl 5 ◌>>=◌
abbrev pub ◌>>=◌ : {A B : Type 0} → Option A → (A → Option B) → Option B
none >>= f = none
some a >>= f = f a

abbrev within : ℕ → ℕ → ℕ → Bool
within low high c = leb low c && leb c high

-- The value of a character, table 1 of the RFC.
unfoldable pub value : ℕ → Option ℕ
value c =
    if within b'A' b'Z' c
    then some (c - 65)
    else if within b'a' b'z' c
    then some (c - 71)
    else if within b'0' b'9' c
    then some (c + 4)
    else if c == b'+'
    then some 62
    else if c == b'/'
    then some 63
    else none

abbrev pub only : Bytes → Bytes → Option Bytes
only bytes [] = some bytes
only bytes (x ∷ rest) = none

-- A group of four characters, with what the rest decodes to; only the last one may be padded.
unfoldable pub decode_group : ℕ → ℕ → ℕ → ℕ → Bytes → Option Bytes → Option Bytes
unfolding value
decode_group w x y z rest more = do
  a ← value w
  b ← value x
  let first = a * 4 + b / 16
  if y == b'=' then (if z == b'=' then only (first ∷ []) rest else none) else (do
    c ← value y
    let second = b % 16 * 16 + c / 4
    if z == b'='
        then only (first ∷ second ∷ []) rest
        else (do d ← value z; bytes ← more; some (first ∷ second ∷ (c % 4 * 64 + d) ∷ bytes)))

unfoldable pub decode : Bytes → Option Bytes
unfolding decode_group
decode [] = some []
decode (w ∷ x ∷ y ∷ z ∷ rest) = decode_group w x y z rest (decode rest)
decode (w ∷ _) = none
