-- ===== src/Base64.antt =====
-- `base64Encode` and `base64Decode` of src/common/Utils.cpp. Characters are their codes.
pub mod RoundTrip
mod Tests
use gnsshat.Base.{
  ℕ, zero, suc, ◌+◌, ◌-◌, ◌*◌, ◌/◌, ◌%◌, ◌^◌, Bool, List, [], ◌∷◌, leb, if◌then◌else◌, Bytes,
  Result, ok, ◌>>=◌, checked, get_elem?, read_at, ℤ, pos, negsuc,
}

-- The letters, the digits, `+` and `/`.
abbrev pub encode_table : List ℕ
encode_table =
    65 ∷ 66 ∷ 67 ∷ 68 ∷ 69 ∷ 70 ∷ 71 ∷ 72 ∷ 73 ∷ 74 ∷ 75 ∷ 76 ∷ 77 ∷ 78 ∷ 79 ∷ 80 ∷ 81 ∷ 82 ∷ 83
    ∷ 84 ∷ 85 ∷ 86 ∷ 87 ∷ 88 ∷ 89 ∷ 90 ∷ 97 ∷ 98 ∷ 99 ∷ 100 ∷ 101 ∷ 102 ∷ 103 ∷ 104 ∷ 105 ∷ 106
    ∷ 107 ∷ 108 ∷ 109 ∷ 110 ∷ 111 ∷ 112 ∷ 113 ∷ 114 ∷ 115 ∷ 116 ∷ 117 ∷ 118 ∷ 119 ∷ 120 ∷ 121 ∷ 122
    ∷ 48 ∷ 49 ∷ 50 ∷ 51 ∷ 52 ∷ 53 ∷ 54 ∷ 55 ∷ 56 ∷ 57 ∷ 43 ∷ 47 ∷ []

abbrev pub padding : ℕ
padding = 61

-- A round of the loop with three bytes, and the last one with two or with one.
unfoldable pub base64_encode : Bytes → Result Bytes
base64_encode [] = ok []
base64_encode (x ∷ []) = do
  a ← read_at encode_table (x * 65536 / 2 ^ 18 % 64)
  b ← read_at encode_table (x * 65536 / 2 ^ 12 % 64)
  ok (a ∷ b ∷ padding ∷ padding ∷ [])
base64_encode (x ∷ y ∷ []) = do
  a ← read_at encode_table ((x * 65536 + y * 256) / 2 ^ 18 % 64)
  b ← read_at encode_table ((x * 65536 + y * 256) / 2 ^ 12 % 64)
  c ← read_at encode_table ((x * 65536 + y * 256) / 2 ^ 6 % 64)
  ok (a ∷ b ∷ c ∷ padding ∷ [])
base64_encode (x ∷ y ∷ z ∷ rest) = do
  a ← read_at encode_table ((x * 65536 + y * 256 + z) / 2 ^ 18 % 64)
  b ← read_at encode_table ((x * 65536 + y * 256 + z) / 2 ^ 12 % 64)
  c ← read_at encode_table ((x * 65536 + y * 256 + z) / 2 ^ 6 % 64)
  d ← read_at encode_table ((x * 65536 + y * 256 + z) % 64)
  later ← base64_encode rest
  ok (a ∷ b ∷ c ∷ d ∷ later)

-- -1
abbrev no_digit : ℤ
no_digit = negsuc 0

abbrev pub decode_table : List ℤ
decode_table =
    no_digit
    ∷ no_digit
    ∷ no_digit
    ∷ no_digit
    ∷ no_digit
    ∷ no_digit
    ∷ no_digit
    ∷ no_digit
    ∷ no_digit
    ∷ no_digit
    ∷ no_digit
    ∷ no_digit
    ∷ no_digit
    ∷ no_digit
    ∷ no_digit
    ∷ no_digit
    ∷ no_digit
    ∷ no_digit
    ∷ no_digit
    ∷ no_digit
    ∷ no_digit
    ∷ no_digit
    ∷ no_digit
    ∷ no_digit
    ∷ no_digit
    ∷ no_digit
    ∷ no_digit
    ∷ no_digit
    ∷ no_digit
    ∷ no_digit
    ∷ no_digit
    ∷ no_digit
    ∷ no_digit
    ∷ no_digit
    ∷ no_digit
    ∷ no_digit
    ∷ no_digit
    ∷ no_digit
    ∷ no_digit
    ∷ no_digit
    ∷ no_digit
    ∷ no_digit
    ∷ no_digit
    ∷ pos 62
    ∷ no_digit
    ∷ no_digit
    ∷ no_digit
    ∷ pos 63
    ∷ pos 52
    ∷ pos 53
    ∷ pos 54
    ∷ pos 55
    ∷ pos 56
    ∷ pos 57
    ∷ pos 58
    ∷ pos 59
    ∷ pos 60
    ∷ pos 61
    ∷ no_digit
    ∷ no_digit
    ∷ no_digit
    ∷ no_digit
    ∷ no_digit
    ∷ no_digit
    ∷ no_digit
    ∷ pos 0
    ∷ pos 1
    ∷ pos 2
    ∷ pos 3
    ∷ pos 4
    ∷ pos 5
    ∷ pos 6
    ∷ pos 7
    ∷ pos 8
    ∷ pos 9
    ∷ pos 10
    ∷ pos 11
    ∷ pos 12
    ∷ pos 13
    ∷ pos 14
    ∷ pos 15
    ∷ pos 16
    ∷ pos 17
    ∷ pos 18
    ∷ pos 19
    ∷ pos 20
    ∷ pos 21
    ∷ pos 22
    ∷ pos 23
    ∷ pos 24
    ∷ pos 25
    ∷ no_digit
    ∷ no_digit
    ∷ no_digit
    ∷ no_digit
    ∷ no_digit
    ∷ no_digit
    ∷ pos 26
    ∷ pos 27
    ∷ pos 28
    ∷ pos 29
    ∷ pos 30
    ∷ pos 31
    ∷ pos 32
    ∷ pos 33
    ∷ pos 34
    ∷ pos 35
    ∷ pos 36
    ∷ pos 37
    ∷ pos 38
    ∷ pos 39
    ∷ pos 40
    ∷ pos 41
    ∷ pos 42
    ∷ pos 43
    ∷ pos 44
    ∷ pos 45
    ∷ pos 46
    ∷ pos 47
    ∷ pos 48
    ∷ pos 49
    ∷ pos 50
    ∷ pos 51
    ∷ no_digit
    ∷ no_digit
    ∷ no_digit
    ∷ no_digit
    ∷ no_digit
    ∷ no_digit
    ∷ no_digit
    ∷ no_digit
    ∷ no_digit
    ∷ no_digit
    ∷ no_digit
    ∷ no_digit
    ∷ no_digit
    ∷ no_digit
    ∷ no_digit
    ∷ no_digit
    ∷ no_digit
    ∷ no_digit
    ∷ no_digit
    ∷ no_digit
    ∷ no_digit
    ∷ no_digit
    ∷ no_digit
    ∷ no_digit
    ∷ no_digit
    ∷ no_digit
    ∷ no_digit
    ∷ no_digit
    ∷ no_digit
    ∷ no_digit
    ∷ no_digit
    ∷ no_digit
    ∷ no_digit
    ∷ no_digit
    ∷ no_digit
    ∷ no_digit
    ∷ no_digit
    ∷ no_digit
    ∷ no_digit
    ∷ no_digit
    ∷ no_digit
    ∷ no_digit
    ∷ no_digit
    ∷ no_digit
    ∷ no_digit
    ∷ no_digit
    ∷ no_digit
    ∷ no_digit
    ∷ no_digit
    ∷ no_digit
    ∷ no_digit
    ∷ no_digit
    ∷ no_digit
    ∷ no_digit
    ∷ no_digit
    ∷ no_digit
    ∷ no_digit
    ∷ no_digit
    ∷ no_digit
    ∷ no_digit
    ∷ no_digit
    ∷ no_digit
    ∷ no_digit
    ∷ no_digit
    ∷ no_digit
    ∷ no_digit
    ∷ no_digit
    ∷ no_digit
    ∷ no_digit
    ∷ no_digit
    ∷ no_digit
    ∷ no_digit
    ∷ no_digit
    ∷ no_digit
    ∷ no_digit
    ∷ no_digit
    ∷ no_digit
    ∷ no_digit
    ∷ no_digit
    ∷ no_digit
    ∷ no_digit
    ∷ no_digit
    ∷ no_digit
    ∷ no_digit
    ∷ no_digit
    ∷ no_digit
    ∷ no_digit
    ∷ no_digit
    ∷ no_digit
    ∷ no_digit
    ∷ no_digit
    ∷ no_digit
    ∷ no_digit
    ∷ no_digit
    ∷ no_digit
    ∷ no_digit
    ∷ no_digit
    ∷ no_digit
    ∷ no_digit
    ∷ no_digit
    ∷ no_digit
    ∷ no_digit
    ∷ no_digit
    ∷ no_digit
    ∷ no_digit
    ∷ no_digit
    ∷ no_digit
    ∷ no_digit
    ∷ no_digit
    ∷ no_digit
    ∷ no_digit
    ∷ no_digit
    ∷ no_digit
    ∷ no_digit
    ∷ no_digit
    ∷ no_digit
    ∷ no_digit
    ∷ no_digit
    ∷ no_digit
    ∷ no_digit
    ∷ no_digit
    ∷ no_digit
    ∷ no_digit
    ∷ no_digit
    ∷ no_digit
    ∷ no_digit
    ∷ no_digit
    ∷ no_digit
    ∷ no_digit
    ∷ no_digit
    ∷ no_digit
    ∷ no_digit
    ∷ no_digit
    ∷ []

abbrev pub decode_entry : ℕ → Result ℤ
decode_entry c = checked (get_elem? decode_table c)

-- One round of the loop: `v` as the word that holds it, and `bits + 8`. A character that is no
-- digit ends the loop.
abbrev pub decode_digit : ℤ → (ℕ → ℕ → Result Bytes) → ℕ → ℕ → Result Bytes
decode_digit (negsuc n) next v bits = ok []
decode_digit (pos digit) next v bits =
    let v' = (v * 64 + digit) % 2 ^ 32 in
    if leb 8 (bits + 6)
    then (do later ← next v' (bits + 6 - 8); ok (v' / 2 ^ (bits + 6 - 8) % 256 ∷ later))
    else next v' (bits + 6)

unfoldable pub decode_loop : Bytes → ℕ → ℕ → Result Bytes
decode_loop [] v bits = ok []
decode_loop (c ∷ chars) v bits = do
  entry ← decode_entry c
  decode_digit entry (decode_loop chars) v bits

unfoldable pub base64_decode : Bytes → Result Bytes
base64_decode chars = decode_loop chars 0 0
