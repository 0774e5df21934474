-- ===== src/Dispatch/Tests.antt =====
-- The acknowledgement of a VALSET, and the dilutions of precision.
use gnsshat.Base.{◌≡◌, refl, ◌↔◌, some, [], ◌∷◌, Bytes, ok, ◌>>=◌, read_le}
use gnsshat.Dispatch.Parse.{Receiver, run_msg, run_frame, run_frames}
use gnsshat.Dispatch.Samples.{fresh, empty_store, idle}
use gnsshat.Dispatch.Kinds.{latest, dop_kind}
use gnsshat.Dispatch.Latest.{run_frames-latest}
use gnsshat.Navigation.Position.{dop_deserialize}
use gnsshat.Navigation.Types.{hundredths}
use gnsshat.Dispatch.{
  class_msg_id, translate, ack_serialize, nak_serialize, raise, run_ack, run_nak, ubx_cfg_valset,
}
use gnsshat.Dispatch.Acks.{run_ack-serialize}
use gnsshat.Dispatch.Table.{translate_iff}

run_ack-serialize_example :
    ((ack_serialize (class_msg_id ubx_cfg_valset) >>= run_ack fresh)
      ≡ ok (record fresh { acks = raise ubx_cfg_valset fresh.acks }))
    × ((nak_serialize (class_msg_id ubx_cfg_valset) >>= run_nak fresh)
        ≡ ok (record fresh { naks = raise ubx_cfg_valset fresh.naks }))
run_ack-serialize_example = run_ack-serialize fresh ubx_cfg_valset

translate_iff_example :
    (translate (0x06, 0x8A) ≡ some ubx_cfg_valset) ↔ (class_msg_id ubx_cfg_valset ≡ (0x06, 0x8A))
translate_iff_example = translate_iff (0x06, 0x8A) ubx_cfg_valset

-- A message with the dilutions 1.50 to 1.56.
abbrev dop_frame : Bytes
dop_frame =
    0xB5 ∷ 0x62 ∷ 0x01 ∷ 0x04 ∷ 0x12 ∷ 0x00 ∷ 0 ∷ 0 ∷ 0 ∷ 0 ∷ 150 ∷ 0 ∷ 151 ∷ 0 ∷ 152 ∷ 0 ∷ 153 ∷ 0
    ∷ 154 ∷ 0 ∷ 155 ∷ 0 ∷ 156 ∷ 0 ∷ 0 ∷ 0 ∷ []

abbrev with_dop : Receiver
with_dop = record idle {
  store = record empty_store {
    dop = record {
      geometric = hundredths 150;
      position = hundredths 151;
      time = hundredths 152;
      vertical = hundredths 153;
      horizontal = hundredths 154;
      northing = hundredths 155;
      easting = hundredths 156;
    };
  };
}

read_dop : run_frames idle ([] ∷ dop_frame ∷ []) ≡ ok with_dop
unfolding run_frames run_frame run_msg dop_deserialize translate read_le
read_dop = refl

run_frames-latest_example :
    latest dop_kind idle.store.dop ([] ∷ dop_frame ∷ []) ≡ ok with_dop.store.dop
run_frames-latest_example = run_frames-latest ([] ∷ dop_frame ∷ []) idle with_dop dop_kind read_dop
