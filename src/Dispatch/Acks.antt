-- ===== src/Dispatch/Acks.antt =====
-- What an acknowledgement does to the registry, from the frame on.
use gnsshat.Base.{ℕ, ◌≡◌, refl, [], ◌∷◌, to_le, ok, ◌>>=◌}
use gnsshat.Messages.Framing.{framed, build_frame_lem}
use gnsshat.Dispatch.{
  UbxMsg, class_msg_id, ack_serialize, nak_serialize, ack_deserialize, Registry, raise,
  registry_ack, registry_nak, run_ack, run_nak,
}
use gnsshat.Dispatch.Table.{translate-class_msg_id}

module _ (class_id msg_id : ℕ) where
  ack_built : ack_serialize (class_id, msg_id) ≡ ok (framed 0x05 0x01 (class_id ∷ msg_id ∷ []))
  unfolding ack_serialize to_le
  ack_built = build_frame_lem 0x05 0x01 (class_id ∷ msg_id ∷ [])

  nak_built : nak_serialize (class_id, msg_id) ≡ ok (framed 0x05 0x00 (class_id ∷ msg_id ∷ []))
  unfolding nak_serialize to_le
  nak_built = build_frame_lem 0x05 0x00 (class_id ∷ msg_id ∷ [])

  deserialized :
      (kind : ℕ)
      → ack_deserialize (framed 0x05 kind (class_id ∷ msg_id ∷ [])) ≡ ok (class_id, msg_id)
  unfolding ack_deserialize to_le
  deserialized kind = refl

-- The frame that acknowledges a message sets the flag of this message in the registry and leaves
-- the other flags, the refusals and the stored values; the frame that refuses it does the same
-- with the refusals.
pub run_ack-serialize :
    (registry : Registry) (msg : UbxMsg)
    → ((ack_serialize (class_msg_id msg) >>= run_ack registry)
        ≡ ok (record registry { acks = raise msg registry.acks }))
      × ((nak_serialize (class_msg_id msg) >>= run_nak registry)
          ≡ ok (record registry { naks = raise msg registry.naks }))
unfolding run_ack run_nak registry_ack registry_nak
run_ack-serialize registry msg =
    let (class_id, msg_id) = class_msg_id msg in
    (
      rw (ack_built class_id msg_id, deserialized class_id msg_id 0x01, translate-class_msg_id msg)
          refl,
      rw (nak_built class_id msg_id, deserialized class_id msg_id 0x00, translate-class_msg_id msg)
          refl,
    )
