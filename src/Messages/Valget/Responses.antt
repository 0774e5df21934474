-- ===== src/Messages/Valget/Responses.antt =====
-- What `deserialize` of src/ublox/ubxmsg/UBX_CFG_VALGET.hpp makes of a response.
use gnsshat.Base.{
  ℕ, zero, suc, ◌+◌, ◌^◌, ◌≤◌, ◌*◌, ◌<◌, ◌≡◌, refl, sym, ap, ◌∙◌, List, [], ◌∷◌, ◌++◌, map,
  append_assoc, length, length-append, true, false, ◌>>=◌, read_le-to_le, All, leb, le→ltb, arith,
  Bytes, Result, ok, err, Fault, read_range, read_range_ok, read_le, to_le, length-to_le,
}
use gnsshat.Messages.KeySizes.{get_key_size}
use gnsshat.Messages.Pairs.{
  ConfigKeyValue, pair_bytes, pairs_bytes, read_key, read_value, behind_pair, length-behind_pair,
  length-frame,
}
use gnsshat.Messages.Valget.{Valget, response_pairs, some_pairs, valget_deserialize}

-- A key in range, whose value has the size that the table gives for it.
abbrev pub IsSized : ConfigKeyValue → Type 0
IsSized cfg = (cfg.key < 2 ^ 32) × (get_key_size cfg.key ≡ ok (length cfg.value))

le→leb : (a b : ℕ) → a ≤ b → leb a b ≡ true
le→leb a b h = ground arith

lt→leb : (a b : ℕ) → b < a → leb a b ≡ false
lt→leb a b h = ground arith

response_pairs_step :
    (fuel : ℕ) (frame : Bytes) (offset n : ℕ) {key : ℕ} {value : Bytes}
    {pairs : List ConfigKeyValue}
    → read_le 4 frame offset ≡ ok key
    → get_key_size key ≡ ok n
    → offset + 4 + n ≤ length frame
    → read_range frame (offset + 4) n ≡ ok value
    → response_pairs fuel frame (offset + 4 + n) ≡ ok pairs
    → response_pairs (suc fuel) frame offset ≡ ok (record { key = key; value = value } ∷ pairs)
unfolding response_pairs
response_pairs_step fuel frame offset n k size fits v rest =
    rw (le→leb (offset + 4) (length frame) (omega arith), k)
      (rw size (rw (le→ltb (length frame) (offset + 4 + n) fits) (rw (v, rest))))

response_pairs_end :
    (fuel : ℕ) (frame : Bytes) (offset : ℕ)
    → length frame < offset + 4
    → response_pairs (suc fuel) frame offset ≡ ok []
unfolding response_pairs
response_pairs_end fuel frame offset h = rw (lt→leb (offset + 4) (length frame) h)

response_pairs_sized :
    (cfgs : List ConfigKeyValue) (fuel : ℕ) (frame before : Bytes) (a b : ℕ)
    → All IsSized cfgs
    → frame ≡ before ++ (pairs_bytes cfgs ++ a ∷ b ∷ [])
    → length cfgs < fuel
    → response_pairs fuel frame (length before) ≡ ok cfgs
response_pairs_sized cfgs zero frame before a b h e k = absurd (omega arith)
response_pairs_sized [] (suc fuel) frame before a b h e k =
    response_pairs_end fuel frame (length before)
      (omega (arith, ap length e, length-append before (a ∷ b ∷ [])))
response_pairs_sized (cfg ∷ cfgs) (suc fuel) frame before a b (w, ws) e k =
    let after : Bytes = pairs_bytes cfgs ++ a ∷ b ∷ [] in
    let e' : frame ≡ before ++ (pair_bytes cfg ++ after) =
      e ∙ ap (◌++◌ before) (append_assoc (pair_bytes cfg) (pairs_bytes cfgs) (a ∷ b ∷ [])) in
    response_pairs_step fuel frame (length before) (length cfg.value)
      (read_key cfg frame before after w.0 e') w.1
      (omega (arith, length-frame cfg frame before after w.0 e'))
      (read_value cfg frame before after w.0 e')
      (ap (response_pairs fuel frame) (sym (length-behind_pair cfg frame before after w.0 e'))
        ∙ response_pairs_sized cfgs fuel frame (before ++ pair_bytes cfg) a b ws
            (behind_pair cfg frame before after w.0 e') (omega arith))

response_pairs_fault :
    (fuel : ℕ) (frame : Bytes) (offset : ℕ) {key : ℕ} {e : Fault}
    → offset + 4 ≤ length frame
    → read_le 4 frame offset ≡ ok key
    → get_key_size key ≡ err e
    → response_pairs (suc fuel) frame offset ≡ err e
unfolding response_pairs
response_pairs_fault fuel frame offset h k unknown =
    rw (le→leb (offset + 4) (length frame) h, k) (rw unknown)

response_pairs_later :
    (fuel : ℕ) (frame : Bytes) (offset n : ℕ) {key : ℕ} {e : Fault}
    → read_le 4 frame offset ≡ ok key
    → get_key_size key ≡ ok n
    → offset + 4 + n ≤ length frame
    → response_pairs fuel frame (offset + 4 + n) ≡ err e
    → response_pairs (suc fuel) frame offset ≡ err e
unfolding response_pairs
response_pairs_later fuel frame offset n k size fits rest =
    rw (le→leb (offset + 4) (length frame) (omega arith), k)
      (rw size (
        rw (le→ltb (length frame) (offset + 4 + n) fits)
          (rw (read_range_ok frame (offset + 4) n fits, rest))))

response_pairs_unknown :
    (cfgs : List ConfigKeyValue) (fuel : ℕ) (frame before : Bytes) (key : ℕ) (rest : Bytes)
    (e : Fault)
    → All IsSized cfgs
    → key < 2 ^ 32
    → get_key_size key ≡ err e
    → frame ≡ before ++ (pairs_bytes cfgs ++ (to_le 4 key ++ rest))
    → length cfgs < fuel
    → response_pairs fuel frame (length before) ≡ err e
response_pairs_unknown cfgs zero frame before key rest e h small unknown w k = absurd (omega arith)
response_pairs_unknown [] (suc fuel) frame before key rest e h small unknown w k =
    response_pairs_fault fuel frame (length before)
      (omega (
        arith,
        ap length w,
        length-append before (to_le 4 key ++ rest),
        length-append (to_le 4 key) rest,
        length-to_le 4 key,
      ))
      (read_le-to_le 4 key frame before rest (omega arith) w) unknown
response_pairs_unknown (cfg ∷ cfgs) (suc fuel) frame before key rest e (s, ss) small unknown w k =
    let after : Bytes = pairs_bytes cfgs ++ (to_le 4 key ++ rest) in
    let w' : frame ≡ before ++ (pair_bytes cfg ++ after) =
      w
      ∙ ap (◌++◌ before) (append_assoc (pair_bytes cfg) (pairs_bytes cfgs) (to_le 4 key ++ rest)) in
    response_pairs_later fuel frame (length before) (length cfg.value)
      (read_key cfg frame before after s.0 w') s.1
      (omega (arith, length-frame cfg frame before after s.0 w'))
      (ap (response_pairs fuel frame) (sym (length-behind_pair cfg frame before after s.0 w'))
        ∙ response_pairs_unknown cfgs fuel frame (before ++ pair_bytes cfg) key rest e ss small
            unknown (behind_pair cfg frame before after s.0 w') (omega arith))

length-pairs_bytes : (cfgs : List ConfigKeyValue) → length cfgs ≤ length (pairs_bytes cfgs)
length-pairs_bytes [] = omega arith
length-pairs_bytes (cfg ∷ cfgs) = omega (
  arith,
  length-pairs_bytes cfgs,
  length-append (pair_bytes cfg) (pairs_bytes cfgs),
  length-append (to_le 4 cfg.key) cfg.value,
  length-to_le 4 cfg.key,
)

abbrev finish : ℕ → ℕ → ℕ → Result (List ConfigKeyValue) → Result Valget
finish version layer position found = found >>= λ pairs. some_pairs pairs >>= λ kept. ok (record {
  version = version;
  layer = layer;
  position = position;
  keys = map (λ pair. pair.key) kept;
  config_data = kept;
})

-- A frame of ten bytes or more: what the loop finds behind them decides.
valget_deserialize_lem :
    (s t c i l0 l1 version layer p0 p1 : ℕ) (rest : Bytes)
    → let frame = s ∷ t ∷ c ∷ i ∷ l0 ∷ l1 ∷ version ∷ layer ∷ p0 ∷ p1 ∷ rest in
      valget_deserialize frame
      ≡ finish version layer (p0 + 256 * p1) (response_pairs (length frame) frame 10)
unfolding valget_deserialize read_le
valget_deserialize_lem s t c i l0 l1 version layer p0 p1 rest =
    let frame : Bytes = s ∷ t ∷ c ∷ i ∷ l0 ∷ l1 ∷ version ∷ layer ∷ p0 ∷ p1 ∷ rest in
    rw (le→ltb (length frame) 10 (omega arith))
      (ap (λ p. finish version layer p (response_pairs (length frame) frame 10)) (omega arith))

-- A response with one pair or more, each with a known key and a value of the size of that key, is
-- read pair by pair; the two bytes of the checksum behind them are left out.
pub valget_deserialize_response :
    (s t c i l0 l1 version layer p0 p1 a b : ℕ) (cfg : ConfigKeyValue) (cfgs : List ConfigKeyValue)
    → All IsSized (cfg ∷ cfgs)
    → valget_deserialize (
        s
        ∷ t
        ∷ c
        ∷ i
        ∷ l0
        ∷ l1
        ∷ version
        ∷ layer
        ∷ p0
        ∷ p1
        ∷ (pairs_bytes (cfg ∷ cfgs) ++ a ∷ b ∷ []))
      ≡ ok (record {
        version = version;
        layer = layer;
        position = p0 + 256 * p1;
        keys = map (λ pair. pair.key) (cfg ∷ cfgs);
        config_data = cfg ∷ cfgs;
      })
valget_deserialize_response s t c i l0 l1 version layer p0 p1 a b cfg cfgs sized =
    let cfgs' = cfg ∷ cfgs in
    let front : Bytes = s ∷ t ∷ c ∷ i ∷ l0 ∷ l1 ∷ version ∷ layer ∷ p0 ∷ p1 ∷ [] in
    valget_deserialize_lem s t c i l0 l1 version layer p0 p1 (pairs_bytes cfgs' ++ a ∷ b ∷ [])
    ∙ ap (finish version layer (p0 + 256 * p1)) (
        response_pairs_sized cfgs' _ _ front a b sized refl
          (omega (arith, length-pairs_bytes cfgs', length-append (pairs_bytes cfgs') (a ∷ b ∷ []))))

-- A response in which a key that the table does not know stands behind any number of good pairs is
-- given up as a whole, with the exception for that key.
pub valget_deserialize_unknown :
    (s t c i l0 l1 version layer p0 p1 key : ℕ) (cfgs : List ConfigKeyValue) (rest : Bytes)
    (e : Fault)
    → All IsSized cfgs
    → key < 2 ^ 32
    → get_key_size key ≡ err e
    → valget_deserialize (
        s
        ∷ t
        ∷ c
        ∷ i
        ∷ l0
        ∷ l1
        ∷ version
        ∷ layer
        ∷ p0
        ∷ p1
        ∷ (pairs_bytes cfgs ++ (to_le 4 key ++ rest)))
      ≡ err e
valget_deserialize_unknown s t c i l0 l1 version layer p0 p1 key cfgs rest e sized h unknown =
    let front : Bytes = s ∷ t ∷ c ∷ i ∷ l0 ∷ l1 ∷ version ∷ layer ∷ p0 ∷ p1 ∷ [] in
    valget_deserialize_lem s t c i l0 l1 version layer p0 p1 _
    ∙ ap (finish version layer (p0 + 256 * p1)) (
        response_pairs_unknown cfgs _ _ front key rest e sized h unknown refl (
          omega (
            arith,
            length-pairs_bytes cfgs,
            length-append (pairs_bytes cfgs) (to_le 4 key ++ rest),
          )))
