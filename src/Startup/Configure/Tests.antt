-- ===== src/Startup/Configure/Tests.antt =====
-- An answer of the receiver that has the expected value already.
use gnsshat.Base.{◌≡◌, refl, true, [], ◌∷◌, All, Bytes, ok, to_le, read_le, read_range}
use gnsshat.Dispatch.{
  raise, run_ack, registry_ack, ack_deserialize, translate, valget_cb, ubx_cfg_valget,
}
use gnsshat.Dispatch.Parse.{with_registry, run_msg, run_frame, run_frames, parse_buffer}
use gnsshat.Dispatch.Samples.{fresh, idle}
use gnsshat.Messages.Framing.{build_frame}
use gnsshat.Messages.KeySizes.{get_key_size}
use gnsshat.Messages.Keys.{cfg_rate_timeref}
use gnsshat.Messages.Valget.{valget_serialize, valget_poll, response_pairs, valget_deserialize}
use gnsshat.Settings.{Settings}
use gnsshat.Startup.Configure.{
  Transfer, World, Attempt, lowered, await_loop, await_ack, configure_try, try_times, configure,
}
use gnsshat.Startup.Configure.Confirmed.{IsConfirmed, configure-IsConfirmed}
use gnsshat.Startup.Verify.{find_mismatches}
use gnsshat.Ubx.Checksum.{checksum_loop, checksum, check_frame, add_checksum}
use gnsshat.Ubx.Frames.{search_sync, keep_frame, extract_at, extract_frames}

abbrev expected : Settings
expected = record { key = cfg_rate_timeref; value = 1 ∷ [] } ∷ []

-- The response with the value, and the acknowledgement of the request.
abbrev answer : Bytes
answer =
    0xB5 ∷ 0x62 ∷ 0x06 ∷ 0x8B ∷ 0x09 ∷ 0x00 ∷ 0x01 ∷ 0x00 ∷ 0x00 ∷ 0x00 ∷ 0x03 ∷ 0x00 ∷ 0x21 ∷ 0x20
    ∷ 0x01 ∷ 0xE0 ∷ 0xF1 ∷ 0xB5 ∷ 0x62 ∷ 0x05 ∷ 0x01 ∷ 0x02 ∷ 0x00 ∷ 0x06 ∷ 0x8B ∷ 0x99 ∷ 0xC2 ∷ []

abbrev answered : Transfer
answered = record { received = answer; polled = []; polled_later = [] }

abbrev silent : Transfer
silent = record { received = []; polled = []; polled_later = [] }

abbrev attempt : Attempt
attempt = record { poll = answered; set = silent; check = silent }

abbrev start : World
start = record { receiver = idle; sent = [] }

abbrev after : World
after = record {
  receiver = with_registry idle (record fresh {
    acks = raise ubx_cfg_valget (lowered ubx_cfg_valget fresh.acks);
    stored_config_values = expected;
  });
  sent =
      (0xB5 ∷ 0x62 ∷ 0x06 ∷ 0x8B ∷ 0x08 ∷ 0x00 ∷ 0x00 ∷ 0x00 ∷ 0x00 ∷ 0x00 ∷ 0x03 ∷ 0x00 ∷ 0x21
        ∷ 0x20 ∷ 0xDD ∷ 0xFF ∷ [])
      ∷ [];
}

configured :
    configure expected (cfg_rate_timeref ∷ []) attempt attempt attempt start ≡ ok (true, after)
unfolding configure try_times configure_try await_ack await_loop parse_buffer run_frames run_frame
    run_msg run_ack registry_ack ack_deserialize translate valget_cb build_frame get_key_size
    valget_serialize valget_poll response_pairs valget_deserialize find_mismatches checksum_loop
    checksum check_frame add_checksum search_sync keep_frame extract_at extract_frames to_le read_le
    read_range
configured = refl

configure-IsConfirmed_example : All (IsConfirmed expected after) (cfg_rate_timeref ∷ [])
configure-IsConfirmed_example =
    configure-IsConfirmed expected (cfg_rate_timeref ∷ []) attempt attempt attempt start after
      configured
