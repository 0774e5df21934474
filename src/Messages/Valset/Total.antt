-- ===== src/Messages/Valset/Total.antt =====
-- `deserialize` of src/ublox/ubxmsg/UBX_CFG_VALSET.hpp on any frame.
use gnsshat.Base.{
  ℕ, zero, suc, ◌+◌, ◌-◌, ◌≤◌, ◌<◌, ◌≡◌, refl, inl, inr, Bool-cases, ltb, ltb→le, List, [], length,
  arith, Bytes, ok, err, invalid_frame_size, ◌⊎◌, read_at_ok, read_le_ok, read_range_ok,
}
use gnsshat.Messages.Pairs.{ConfigKeyValue}
use gnsshat.Messages.Valset.{Valset, valset_pairs, value_size, valset_deserialize}

valset_pairs_ok :
    (fuel : ℕ) (frame : Bytes) (offset : ℕ)
    → offset ≤ length frame
    → length frame < fuel + offset
    → (pairs : List ConfigKeyValue) × (valset_pairs fuel frame offset ≡ ok pairs)
unfolding valset_pairs
valset_pairs_ok zero frame offset h k = absurd (omega arith)
valset_pairs_ok (suc fuel) frame offset h k = elim (Bool-cases (ltb (offset + 4) (length frame))) [
  | inr done ↦ rw done ([], refl)
  | inl more ↦
      let size = value_size (length frame - (offset + 4)) in
      let (key, e) = read_le_ok 4 frame offset (ground arith) in
      let (pairs, rest) =
        valset_pairs_ok fuel frame (offset + 4 + size) (ground arith) (omega arith) in
      let whole = read_range_ok frame (offset + 4) size (ground arith) in
      rw (more, e, whole) (rw rest (_, refl))
]

-- A frame of ten bytes or more is read to a message, whatever it holds and without a read behind its
-- end; any shorter one is refused with the exception for its size.
pub valset_deserialize_total :
    (frame : Bytes)
    → ((length frame < 10) × (valset_deserialize frame ≡ err invalid_frame_size))
      ⊎ ((10 ≤ length frame) × ((msg : Valset) × (valset_deserialize frame ≡ ok msg)))
unfolding valset_deserialize
valset_deserialize_total frame = elim (Bool-cases (ltb (length frame) 10)) [
  | inl short ↦ inl (ground arith, rw short)
  | inr long ↦
      let size : 10 ≤ length frame = ltb→le (length frame) 10 long in
      let (version, v) = read_at_ok frame 6 (omega arith) in
      let (layer, l) = read_at_ok frame 7 (omega arith) in
      let (pairs, p) = valset_pairs_ok (length frame) frame 10 size (omega arith) in
      inr
        (size, (record { version = version; layer = layer; cfg_data = pairs }, rw (long, v, l, p)))
]
