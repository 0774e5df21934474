-- ===== src/Nmea/Text.antt =====
-- How src/ublox/NmeaForwarder.cpp prints: `std::to_string`, `std::setw` with zeros, the checksum.
use gnsshat.Base.{
  ℕ, zero, suc, ◌+◌, ◌-◌, ◌/◌, ◌%◌, List, [], ◌∷◌, ◌++◌, ltb, if◌then◌else◌, length, ℤ, pos, negsuc,
}
use gnsshat.Rtcm3.Crc.{xor}
use Prim.Native.Char.{code}
use Prim.Native.String.{String}

abbrev pub Text : Type 0
Text = List ℕ

-- The codes of the characters of a literal.
abbrev pub text : String → Text
text String.[] = []
text (String.◌∷◌ c rest) = code c ∷ text rest

-- `std::to_string` of a number below 10 ^ fuel.
unfoldable pub digits : ℕ → ℕ → Text
digits zero n = []
digits (suc fuel) n =
    let higher = digits fuel (n / 10) in
    if ltb n 10 then (48 + n) ∷ [] else higher ++ (48 + n % 10) ∷ []

unfoldable pub decimal : ℕ → Text
unfolding digits
decimal n = digits (suc n) n

abbrev pub decimal_int : ℤ → Text
decimal_int (pos n) = decimal n
decimal_int (negsuc n) = 45 ∷ decimal (n + 1)

abbrev pub zeros : ℕ → Text
zeros zero = []
zeros (suc n) = 48 ∷ zeros n

-- `std::setfill('0') << std::setw(width)`.
abbrev pub padded : ℕ → Text → Text
padded width digits_text = zeros (width - length digits_text) ++ digits_text

-- The loop of `calculateNmeaChecksum`, on the low eight bits of each character.
unfoldable pub xor_all : ℕ → Text → ℕ
xor_all checksum [] = checksum
xor_all checksum (c ∷ rest) = xor_all (xor 8 checksum c) rest

abbrev pub hex_digit : ℕ → ℕ
hex_digit d = if ltb d 10 then 48 + d else 55 + d

unfoldable pub calculate_nmea_checksum : Text → Text
calculate_nmea_checksum sentence =
    let checksum = xor_all 0 sentence in hex_digit (checksum / 16) ∷ hex_digit (checksum % 16) ∷ []

-- The characters around a sentence: `$`, `*` with the checksum, and the end of the line.
unfoldable pub framed_sentence : Text → Text
framed_sentence sentence =
    36 ∷ (sentence ++ (42 ∷ (calculate_nmea_checksum sentence ++ (13 ∷ 10 ∷ []))))
