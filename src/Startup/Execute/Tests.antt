-- ===== src/Startup/Execute/Tests.antt =====
-- A receiver that never answers: the first group is polled three times, and the startup fails.
use gnsshat.Base.{◌≡◌, refl, false, [], ◌∷◌, Bytes, ok, to_le, read_le}
use gnsshat.Dispatch.{ubx_cfg_valget}
use gnsshat.Dispatch.Parse.{with_registry, run_frames, parse_buffer}
use gnsshat.Dispatch.Samples.{fresh, idle}
use gnsshat.Messages.Framing.{build_frame}
use gnsshat.Messages.Valget.{valget_serialize, valget_poll}
use gnsshat.Startup.Configure.{
  Transfer, World, Attempt, lowered, await_loop, await_ack, configure_try, try_times, configure,
}
use gnsshat.Startup.Execute.{
  Tries, Inputs, reconfigure_comm_port, configure_all, m9n_startup, f9p_startup,
}
use gnsshat.Startup.Execute.Sent.{AreUnsaved}
use gnsshat.Startup.Execute.Unsaved.{f9p_startup-AreUnsaved}
use gnsshat.Startup.Samples.{whole, config}
use gnsshat.Ubx.Checksum.{checksum_loop, checksum, add_checksum, check_frame}
use gnsshat.Ubx.Frames.{search_sync, extract_at, extract_frames}

abbrev silent : Transfer
silent = record { received = []; polled = []; polled_later = [] }

abbrev attempt : Attempt
attempt = record { poll = silent; set = silent; check = silent }

abbrev tries : Tries
tries = record { first = attempt; second = attempt; third = attempt }

abbrev inputs : Inputs
inputs = record { groups = λ i. tries; ports = []; saves = []; version = silent }

abbrev start : World
start = record { receiver = idle; sent = [] }

-- The poll of the keys of the SPI.
abbrev spi_poll : Bytes
spi_poll =
    0xB5 ∷ 0x62 ∷ 0x06 ∷ 0x8B ∷ 0x18 ∷ 0x00 ∷ 0x00 ∷ 0x00 ∷ 0x00 ∷ 0x00 ∷ 0x01 ∷ 0x00 ∷ 0x64 ∷ 0x20
    ∷ 0x02 ∷ 0x00 ∷ 0x64 ∷ 0x10 ∷ 0x03 ∷ 0x00 ∷ 0x64 ∷ 0x10 ∷ 0x05 ∷ 0x00 ∷ 0x64 ∷ 0x10 ∷ 0x06
    ∷ 0x00 ∷ 0x64 ∷ 0x10 ∷ 0x0E ∷ 0xC1 ∷ []

abbrev after : World
after = record {
  receiver = with_registry idle (record fresh {
    acks = lowered ubx_cfg_valget (lowered ubx_cfg_valget (lowered ubx_cfg_valget fresh.acks));
  });
  sent = spi_poll ∷ spi_poll ∷ spi_poll ∷ [];
}

unanswered : f9p_startup whole config inputs (λ i. tries) [] start ≡ ok (false, after)
unfolding f9p_startup m9n_startup configure_all reconfigure_comm_port configure try_times
    configure_try await_ack await_loop parse_buffer run_frames build_frame valget_serialize
    valget_poll checksum_loop checksum add_checksum search_sync extract_at extract_frames to_le
    read_le check_frame
unanswered = refl

f9p_startup-AreUnsaved_example : AreUnsaved after
f9p_startup-AreUnsaved_example =
    f9p_startup-AreUnsaved whole config inputs (λ i. tries) [] start after false refl tt unanswered
