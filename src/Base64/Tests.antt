-- ===== src/Base64/Tests.antt =====
-- A login encoded and decoded.
use gnsshat.Base.{◌≡◌, refl, [], ◌∷◌, arith, Bytes, ok}
use gnsshat.Base64.{base64_encode, base64_decode}
use gnsshat.Base64.RoundTrip.{base64_decode-encode}

-- "a:b!"
abbrev login : Bytes
login = 97 ∷ 58 ∷ 98 ∷ 33 ∷ []

encoded : base64_encode login ≡ ok (89 ∷ 84 ∷ 112 ∷ 105 ∷ 73 ∷ 81 ∷ 61 ∷ 61 ∷ [])
unfolding base64_encode
encoded = refl

base64_decode-encode_example :
    (chars : Bytes) × (base64_encode login ≡ ok chars) × (base64_decode chars ≡ ok login)
base64_decode-encode_example =
    base64_decode-encode login (omega arith, (omega arith, (omega arith, (omega arith, tt))))
