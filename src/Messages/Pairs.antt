-- ===== src/Messages/Pairs.antt =====
-- `ConfigKeyValue` of src/ublox/ubxmsg/UBX_CFG_VALSET.hpp, and how pairs are laid out.
use gnsshat.Base.{
  ℕ, ◌+◌, ◌^◌, ◌<◌, ◌≡◌, ap, sym, ◌∙◌, List, [], ◌∷◌, ◌++◌, append_assoc, length, length-append,
  arith, Bytes, to_le, length-to_le, ok, read_le, read_le-to_le, read_range, read_range_lem,
}

pub record ConfigKeyValue : Type 0 where
  pub key : ℕ
  pub value : Bytes

-- A key in four bytes, then the bytes of its value.
abbrev pub pair_bytes : ConfigKeyValue → Bytes
pair_bytes cfg = to_le 4 cfg.key ++ cfg.value

abbrev pub pairs_bytes : List ConfigKeyValue → Bytes
pairs_bytes [] = []
pairs_bytes (cfg ∷ cfgs) = pair_bytes cfg ++ pairs_bytes cfgs

-- A pair in a frame, with what stands before and behind it.
module _ (cfg : ConfigKeyValue) (frame before after : Bytes) (h : cfg.key < 2 ^ 32)
    (e : frame ≡ before ++ (pair_bytes cfg ++ after)) where
  pub read_key : read_le 4 frame (length before) ≡ ok cfg.key
  read_key =
      read_le-to_le 4 cfg.key frame before (cfg.value ++ after) (omega arith)
        (e ∙ ap (◌++◌ before) (append_assoc (to_le 4 cfg.key) cfg.value after))

  pub behind_key : frame ≡ (before ++ to_le 4 cfg.key) ++ (cfg.value ++ after)
  behind_key =
      e
      ∙ ap (◌++◌ before) (append_assoc (to_le 4 cfg.key) cfg.value after)
      ∙ sym (append_assoc before (to_le 4 cfg.key) (cfg.value ++ after))

  pub read_value : read_range frame (length before + 4) (length cfg.value) ≡ ok cfg.value
  read_value =
      ap (λ n. read_range frame n (length cfg.value))
        (omega (arith, length-append before (to_le 4 cfg.key), length-to_le 4 cfg.key))
      ∙ read_range_lem (before ++ to_le 4 cfg.key) cfg.value after behind_key

  pub behind_pair : frame ≡ (before ++ pair_bytes cfg) ++ after
  behind_pair = e ∙ sym (append_assoc before (pair_bytes cfg) after)

  pub length-behind_pair : length (before ++ pair_bytes cfg) ≡ length before + 4 + length cfg.value
  length-behind_pair = omega (
    arith,
    length-append before (pair_bytes cfg),
    length-append (to_le 4 cfg.key) cfg.value,
    length-to_le 4 cfg.key,
  )

  pub length-frame : length frame ≡ length before + 4 + length cfg.value + length after
  length-frame = omega (
    arith,
    ap length behind_pair,
    length-append (before ++ pair_bytes cfg) after,
    length-behind_pair,
  )
