-- ===== src/Messages/Framing.antt =====
-- `buildFrame` of src/ublox/ubxmsg/IUbxMsg.cpp, the frames that every message is sent in.
use gnsshat.Base.{
  ℕ, ◌+◌, ◌%◌, ◌^◌, ◌<◌, ◌≡◌, refl, ap, ◌∙◌, [], ◌∷◌, ◌++◌, length, length-append, arith, Bytes,
  Result, ok, read_le-to_le, length-to_le, to_le, ==-refl, append_assoc,
}
use gnsshat.Ubx.Checksum.{add_checksum}
use gnsshat.Ubx.Checksum.Sums.{sum, weighted_sum, add_checksum_sums, check_frame_sums}
use gnsshat.Ubx.Frames.Sound.{IsFrame}

unfoldable pub build_frame : Bytes → Result Bytes
build_frame frame = add_checksum frame

-- The class, the identifier, the length field and the payload, over which the checksum runs.
abbrev pub body : ℕ → ℕ → Bytes → Bytes
body class_id msg_id payload = class_id ∷ msg_id ∷ (to_le 2 (length payload) ++ payload)

abbrev pub framed : ℕ → ℕ → Bytes → Bytes
framed class_id msg_id payload =
    let content = body class_id msg_id payload in
    0xB5 ∷ 0x62 ∷ (content ++ sum content % 256 ∷ weighted_sum content % 256 ∷ [])

module _ (class_id msg_id : ℕ) (payload : Bytes) where
  pub build_frame_lem :
      build_frame (0xB5 ∷ 0x62 ∷ body class_id msg_id payload) ≡ ok (framed class_id msg_id payload)
  unfolding build_frame
  build_frame_lem = add_checksum_sums 0xB5 0x62 (body class_id msg_id payload)

  pub framed_shape :
      (a b : ℕ)
      → let content = body class_id msg_id payload in
        0xB5 ∷ 0x62 ∷ (content ++ a ∷ b ∷ [])
        ≡ (0xB5 ∷ 0x62 ∷ class_id ∷ msg_id ∷ [])
          ++ (to_le 2 (length payload) ++ (payload ++ a ∷ b ∷ []))
  framed_shape a b =
      ap (λ bs. 0xB5 ∷ 0x62 ∷ class_id ∷ msg_id ∷ bs)
        (append_assoc (to_le 2 (length payload)) payload (a ∷ b ∷ []))

  framed_length :
      (a b : ℕ)
      → length (0xB5 ∷ 0x62 ∷ (body class_id msg_id payload ++ a ∷ b ∷ [])) ≡ length payload + 8
  framed_length a b = omega (
    arith,
    ap length (framed_shape a b),
    length-append (to_le 2 (length payload)) (payload ++ a ∷ b ∷ []),
    length-append payload (a ∷ b ∷ []),
    length-to_le 2 (length payload),
  )

  -- Whatever message is built, the receiver's own check takes it for a frame: the length field
  -- holds the size of the payload, the bytes are those of the payload, and the checksum passes.
  pub build_frame-IsFrame :
      length payload < 2 ^ 16
      → (frame : Bytes) × (build_frame (0xB5 ∷ 0x62 ∷ body class_id msg_id payload) ≡ ok frame)
        × IsFrame frame
  build_frame-IsFrame h = (
    framed class_id msg_id payload,
    build_frame_lem,
    record {
      payload_length = length payload;
      synced = (_, refl);
      announced =
          read_le-to_le 2 (length payload) _ (0xB5 ∷ 0x62 ∷ class_id ∷ msg_id ∷ []) _ h
            (framed_shape _ _);
      sized = framed_length _ _;
      checked =
          check_frame_sums 0xB5 0x62 content _ _
          ∙ rw (==-refl (sum content % 256), ==-refl (weighted_sum content % 256));
    },
  )
    where
      content : Bytes
      content = body class_id msg_id payload
