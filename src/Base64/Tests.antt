-- ===== src/Base64/Tests.antt =====
-- `base64_encode` on the examples of RFC 4648, and its theorems on one of them.
use httpoll.Prelude.{pos, negsuc, ◌+◌, ◌≡◌, refl, some, ◌∷◌, ◌++◌, Bytes, codes, length, arith, All}
use httpoll.Base64.{encoded, base64_encode}
use httpoll.Base64.Sextets.{IsText}
use httpoll.Base64.Decode.{decode}
use httpoll.Base64.RoundTrip.{base64_encode-decode, base64_encode-short}

foob : encoded (codes "foob") ≡ codes "Zm9vYg=="
unfolding encoded
foob = refl

fooba : encoded (codes "fooba") ≡ codes "Zm9vYmE="
unfolding encoded
fooba = refl

foobar : encoded (codes "foobar") ≡ codes "Zm9vYmFy"
unfolding encoded
foobar = refl

decode_fooba : decode (codes "Zm9vYmE=") ≡ some (codes "fooba")
unfolding decode
decode_fooba = refl

-- Twelve bytes of memory.
abbrev memory : Bytes
memory = codes "............"

base64_encode-decode_example :
    (text : Bytes) × (decode text ≡ some (codes "foob"))
    × All IsText text
    × (length text + 1 ≡ 9)
    × (length (text ++ (0 ∷ codes "...")) ≡ 12)
    × (base64_encode (codes "foob") memory (some 10)
        ≡ (negsuc 0, text ++ (0 ∷ codes "..."), some 9))
base64_encode-decode_example =
    base64_encode-decode (codes "foob") memory 10 (omega arith) (omega arith) (omega arith)
      (omega arith)

base64_encode-short_example :
    base64_encode (codes "foob") memory (some 8) ≡ (pos 0, 0 ∷ codes "...........", some 9)
base64_encode-short_example =
    base64_encode-short (codes "foob") memory 8 (omega arith) (omega arith)
