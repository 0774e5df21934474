-- ===== src/Messages/Valset/RoundTrip.antt =====
-- Reading back what `serialize` of src/ublox/ubxmsg/UBX_CFG_VALSET.hpp writes.
use gnsshat.Base.{
  ℕ, zero, suc, ◌+◌, ◌-◌, ◌/◌, ◌%◌, ◌^◌, ◌≤◌, ◌<◌, ◌≡◌, refl, sym, ap, ◌∙◌, List, [], ◌∷◌, ◌++◌,
  append_assoc, append-nil, length, length-append, All, lt→ltb, le→ltb, arith, Bytes, ok,
  read_range, read_le, to_le, to_le_two, length-to_le,
}
use gnsshat.Ubx.Checksum.Sums.{sum, weighted_sum}
use gnsshat.Messages.Framing.{body, framed, build_frame_lem, framed_shape}
use gnsshat.Messages.Pairs.{
  ConfigKeyValue, pair_bytes, pairs_bytes, read_key, read_value, behind_pair, length-behind_pair,
  length-frame,
}
use gnsshat.Messages.Valset.{
  Valset, value_size, valset_payload, valset_serialize, valset_pairs, valset_deserialize, push_pair,
  set_u1,
}

-- A key in range and a value of four bytes.
abbrev pub IsWord : ConfigKeyValue → Type 0
IsWord cfg = (cfg.key < 2 ^ 32) × (length cfg.value ≡ 4)

push_pair-word :
    (cfg : ConfigKeyValue) (pairs : List ConfigKeyValue)
    → length cfg.value ≡ 4
    → push_pair cfg.key cfg.value pairs ≡ cfg ∷ pairs
push_pair-word cfg pairs h = go cfg.value h
  where
    go :
        (value : Bytes)
        → length value ≡ 4
        → push_pair cfg.key value pairs ≡ record cfg { value = value } ∷ pairs
    go [] h = absurd (omega (arith, h))
    go (b ∷ value) h = refl

-- One round of the loop, and its end.
valset_pairs_step :
    (fuel : ℕ) (frame : Bytes) (offset n : ℕ) {key : ℕ} {value : Bytes}
    {pairs : List ConfigKeyValue}
    → offset + 4 < length frame
    → read_le 4 frame offset ≡ ok key
    → value_size (length frame - (offset + 4)) ≡ n
    → read_range frame (offset + 4) n ≡ ok value
    → valset_pairs fuel frame (offset + 4 + n) ≡ ok pairs
    → valset_pairs (suc fuel) frame offset ≡ ok (push_pair key value pairs)
unfolding valset_pairs
valset_pairs_step fuel frame offset n more k size v rest =
    rw (lt→ltb (offset + 4) (length frame) more, k) (rw size (rw (v, rest)))

valset_pairs_end :
    (fuel : ℕ) (frame : Bytes) (offset : ℕ)
    → length frame ≤ offset + 4
    → valset_pairs (suc fuel) frame offset ≡ ok []
unfolding valset_pairs
valset_pairs_end fuel frame offset h = rw (le→ltb (offset + 4) (length frame) h)

valset_pairs_words :
    (cfgs : List ConfigKeyValue) (fuel : ℕ) (frame before : Bytes) (a b : ℕ)
    → All IsWord cfgs
    → frame ≡ before ++ (pairs_bytes cfgs ++ a ∷ b ∷ [])
    → length cfgs < fuel
    → valset_pairs fuel frame (length before) ≡ ok cfgs
valset_pairs_words cfgs zero frame before a b h e k = absurd (omega arith)
valset_pairs_words [] (suc fuel) frame before a b h e k =
    valset_pairs_end fuel frame (length before)
      (omega (arith, ap length e, length-append before (a ∷ b ∷ [])))
valset_pairs_words (cfg ∷ cfgs) (suc fuel) frame before a b (w, ws) e k =
    let after : Bytes = pairs_bytes cfgs ++ a ∷ b ∷ [] in
    let e' : frame ≡ before ++ (pair_bytes cfg ++ after) =
      e ∙ ap (◌++◌ before) (append_assoc (pair_bytes cfg) (pairs_bytes cfgs) (a ∷ b ∷ [])) in
    let size = length-frame cfg frame before after w.0 e' in
    let tail : length after ≡ length (pairs_bytes cfgs) + 2 =
      length-append (pairs_bytes cfgs) (a ∷ b ∷ []) in
    valset_pairs_step fuel frame (length before) 4 (omega (arith, size))
      (read_key cfg frame before after w.0 e') (ground (arith, size, w.1))
      (ap (read_range frame (length before + 4)) (sym w.1)
        ∙ read_value cfg frame before after w.0 e')
      (ap (valset_pairs fuel frame)
          (omega (arith, length-behind_pair cfg frame before after w.0 e'))
        ∙ valset_pairs_words cfgs fuel frame (before ++ pair_bytes cfg) a b ws
            (behind_pair cfg frame before after w.0 e') (omega arith))
    ∙ ap ok (push_pair-word cfg cfgs w.1)

length-pairs_bytes : (cfgs : List ConfigKeyValue) → length cfgs ≤ length (pairs_bytes cfgs)
length-pairs_bytes [] = omega arith
length-pairs_bytes (cfg ∷ cfgs) = omega (
  arith,
  length-pairs_bytes cfgs,
  length-append (pair_bytes cfg) (pairs_bytes cfgs),
  length-append (to_le 4 cfg.key) cfg.value,
  length-to_le 4 cfg.key,
)

-- A frame of ten bytes or more, with the pairs behind them.
valset_deserialize_lem :
    (c i l0 l1 version layer : ℕ) (rest : Bytes) (pairs : List ConfigKeyValue)
    → let frame = 0xB5 ∷ 0x62 ∷ c ∷ i ∷ l0 ∷ l1 ∷ version ∷ layer ∷ 0 ∷ 0 ∷ rest in
      valset_pairs (length frame) frame 10 ≡ ok pairs
      → valset_deserialize frame
        ≡ ok (record { version = version; layer = layer; cfg_data = pairs })
unfolding valset_deserialize
valset_deserialize_lem c i l0 l1 version layer rest pairs e =
    let frame : Bytes = 0xB5 ∷ 0x62 ∷ c ∷ i ∷ l0 ∷ l1 ∷ version ∷ layer ∷ 0 ∷ 0 ∷ rest in
    rw (le→ltb (length frame) 10 (omega arith)) (rw e)

module _ (version layer : ℕ) (cfgs : List ConfigKeyValue) where
  abbrev sent : Valset
  sent = record { version = version; layer = layer; cfg_data = cfgs }

  abbrev content : Bytes
  content = body 0x06 0x8A (valset_payload sent)

  abbrev checks : Bytes
  checks = (sum content % 256) ∷ (weighted_sum content % 256) ∷ []

  abbrev front : Bytes
  front =
      let n = length (valset_payload sent) in
      0xB5 ∷ 0x62 ∷ 0x06 ∷ 0x8A ∷ (n % 256) ∷ (n / 256 % 256) ∷ version ∷ layer ∷ 0 ∷ 0 ∷ []

  -- What is read from a built frame is what the loop gives behind the ten bytes in front.
  valset_deserialize_built :
      (pairs : List ConfigKeyValue)
      → let frame = front ++ (pairs_bytes cfgs ++ checks) in
        valset_pairs (length frame) frame 10 ≡ ok pairs
        → (valset_serialize sent ≡ ok (framed 0x06 0x8A (valset_payload sent)))
          × (valset_deserialize (framed 0x06 0x8A (valset_payload sent))
              ≡ ok (record { version = version; layer = layer; cfg_data = pairs }))
  unfolding valset_serialize valset_payload
  valset_deserialize_built pairs e =
      let payload = valset_payload sent in
      let n = length payload in
      let whole : framed 0x06 0x8A payload ≡ front ++ (pairs_bytes cfgs ++ checks) =
        framed_shape 0x06 0x8A payload _ _ ∙ rw (to_le_two n) in
      (
        build_frame_lem 0x06 0x8A payload,
        ap valset_deserialize whole
            ∙ valset_deserialize_lem 0x06 0x8A (n % 256) (n / 256 % 256) version layer _ pairs e,
      )

-- A message whose keys fit four bytes and whose values all have four bytes is read back from the
-- frame that `serialize` builds: version, layer and pairs, in order.
pub valset_deserialize-serialize :
    (msg : Valset)
    → All IsWord msg.cfg_data
    → (frame : Bytes) × (valset_serialize msg ≡ ok frame) × (valset_deserialize frame ≡ ok msg)
valset_deserialize-serialize msg words =
    let cfgs = msg.cfg_data in
    let trailer = checks msg.version msg.layer cfgs in
    let (built, got) = valset_deserialize_built msg.version msg.layer cfgs cfgs (
      valset_pairs_words cfgs _ _ (front msg.version msg.layer cfgs) _ _ words refl
        (omega (arith, length-pairs_bytes cfgs, length-append (pairs_bytes cfgs) trailer))) in
    (_, built, got)

-- One pair with a value of one byte: the loop takes the checksum for the rest of the value.
valset_pairs_byte :
    (fuel key value : ℕ) (frame before : Bytes) (a b : ℕ)
    → key < 2 ^ 32
    → frame ≡ before ++ (pairs_bytes (record { key = key; value = value ∷ [] } ∷ []) ++ a ∷ b ∷ [])
    → valset_pairs (suc (suc fuel)) frame (length before)
      ≡ ok (record { key = key; value = value ∷ a ∷ b ∷ [] } ∷ [])
valset_pairs_byte fuel key value frame before a b h e =
    let cfg : ConfigKeyValue = record { key = key; value = value ∷ a ∷ b ∷ [] } in
    let e' : frame ≡ before ++ (pair_bytes cfg ++ []) =
      e ∙ ap (◌++◌ before) (simp (append_assoc, append-nil)) in
    let size = length-frame cfg frame before [] h e' in
    valset_pairs_step (suc fuel) frame (length before) 3 (omega (arith, size))
      (read_key cfg frame before [] h e') (ground (arith, size))
      (read_value cfg frame before [] h e')
      (valset_pairs_end fuel frame (length before + 4 + 3) (omega (arith, size)))

-- A message that sets one key to one byte is not read back: the value that `deserialize` gives is
-- that byte and the two bytes of the checksum.
pub valset_deserialize-set_u1 :
    (key value layer : ℕ)
    → key < 2 ^ 32
    → (frame : Bytes) × (a : ℕ) × (b : ℕ) × (set_u1 key value layer ≡ ok frame)
      × (valset_deserialize frame
          ≡ ok (record {
            version = 0;
            layer = layer;
            cfg_data = record { key = key; value = value ∷ a ∷ b ∷ [] } ∷ [];
          }))
unfolding set_u1
valset_deserialize-set_u1 key value layer h =
    let cfgs : List ConfigKeyValue = record { key = key; value = value ∷ [] } ∷ [] in
    let (built, got) =
      valset_deserialize_built 0 layer cfgs _
        (valset_pairs_byte _ key value _ (front 0 layer cfgs) _ _ h refl) in
    (_, _, _, built, got)
