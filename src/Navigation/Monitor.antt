-- ===== src/Navigation/Monitor.antt =====
-- `deserialize` of src/ublox/ubxmsg/UBX_MON_RF.hpp, UBX_MON_SPAN.hpp, UBX_MON_SYS.hpp and
-- UBX_MON_VER.hpp. The last two leave the message as it was when the frame is too short.
use gnsshat.Base.{
  ℕ, zero, suc, ◌+◌, ◌-◌, ◌*◌, ◌/◌, ◌%◌, ◌||◌, min, true, List, [], ◌∷◌, Bytes, Result, ok, err,
  out_of_bounds, ◌>>=◌, ◌==◌, leb, ltb, if◌then◌else◌, length, slice, read_at, read_le,
}
use gnsshat.Navigation.Types.{percent, signed, RfBlock, RfBlockSpectrumData, SystemHealth, MonVer}

-- The band of a block: as the frame says it, or by the block's identifier on a receiver that does
-- not say it.
abbrev pub gnss_band_of : ℕ → ℕ → ℕ
gnss_band_of id band =
    if band == 0 || ltb 4 band then (if id == 0 then 1 else if id == 1 then 0xF1 else 0) else band

unfoldable pub read_rf_block : Bytes → ℕ → Result RfBlock
read_rf_block frame i = do
  id ← read_at frame (10 + i * 24)
  jamming_state ← read_at frame (11 + i * 24)
  antenna_status ← read_at frame (12 + i * 24)
  antenna_power ← read_at frame (13 + i * 24)
  post_status ← read_le 4 frame (14 + i * 24)
  noise_per_ms ← read_le 2 frame (22 + i * 24)
  agc ← read_le 2 frame (24 + i * 24)
  cw_interference ← read_at frame (26 + i * 24)
  ofs_i ← read_at frame (27 + i * 24)
  mag_i ← read_at frame (28 + i * 24)
  ofs_q ← read_at frame (29 + i * 24)
  mag_q ← read_at frame (30 + i * 24)
  band ← read_at frame (31 + i * 24)
  ok (record {
    id = id;
    jamming_state = jamming_state % 4;
    antenna_status = antenna_status;
    antenna_power = antenna_power;
    post_status = post_status;
    noise_per_ms = noise_per_ms;
    agc_monitor = percent agc 8191;
    cw_interference_suppression_level = percent cw_interference 255;
    ofs_i = signed 8 ofs_i;
    mag_i = mag_i;
    ofs_q = signed 8 ofs_q;
    mag_q = mag_q;
    gnss_band = gnss_band_of id band;
  })

-- A loop over the blocks, with the number of blocks that are left.
unfoldable pub read_blocks {ℓ} :
    {A : Type ℓ} → (Bytes → ℕ → Result A) → ℕ → Bytes → ℕ → Result (List A)
read_blocks read zero frame i = ok []
read_blocks read (suc left) frame i = do
  block ← read frame i
  blocks ← read_blocks read left frame (i + 1)
  ok (block ∷ blocks)

unfoldable pub rf_deserialize : Bytes → Result (List RfBlock)
rf_deserialize frame = do number ← read_at frame 7; read_blocks read_rf_block number frame 0

-- `std::copy` of 256 bytes from `offset` on.
abbrev pub copy_spectrum : Bytes → ℕ → Result Bytes
copy_spectrum frame offset =
    if ltb (length frame) (offset + 256) then err out_of_bounds else ok (slice frame offset 256)

unfoldable pub read_spectrum : Bytes → ℕ → Result RfBlockSpectrumData
read_spectrum frame i = do
  samples ← copy_spectrum frame (10 + i * 272)
  span ← read_le 4 frame (10 + 256 + i * 272)
  resolution ← read_le 4 frame (14 + 256 + i * 272)
  center_freq ← read_le 4 frame (18 + 256 + i * 272)
  gain ← read_at frame (22 + 256 + i * 272)
  ok (record {
    id = i;
    samples = samples;
    span = span;
    resolution = resolution;
    center_freq = center_freq;
    gain = gain;
  })

unfoldable pub span_deserialize : Bytes → Result (List RfBlockSpectrumData)
span_deserialize frame = do number ← read_at frame 7; read_blocks read_spectrum number frame 0

abbrev pub read_system_health : Bytes → Result SystemHealth
read_system_health frame = do
  msg_version ← read_at frame 6
  boot_type ← read_at frame 7
  cpu_load ← read_at frame 8
  cpu_load_max ← read_at frame 9
  mem_usage ← read_at frame 10
  mem_usage_max ← read_at frame 11
  io_usage ← read_at frame 12
  io_usage_max ← read_at frame 13
  run_time ← read_le 4 frame 14
  notice_count ← read_le 2 frame 18
  warn_count ← read_le 2 frame 20
  error_count ← read_le 2 frame 22
  temperature ← read_at frame 24
  ok (record {
    valid = true;
    msg_version = msg_version;
    boot_type = boot_type;
    cpu_load = cpu_load;
    cpu_load_max = cpu_load_max;
    mem_usage = mem_usage;
    mem_usage_max = mem_usage_max;
    io_usage = io_usage;
    io_usage_max = io_usage_max;
    run_time = run_time;
    notice_count = notice_count;
    warn_count = warn_count;
    error_count = error_count;
    temperature_c = signed 8 temperature;
  })

unfoldable pub sys_deserialize : SystemHealth → Bytes → Result SystemHealth
sys_deserialize health frame =
    if ltb (length frame) (6 + 24) then ok health else read_system_health frame

-- The bytes before the first zero.
abbrev pub until_zero : Bytes → Bytes
until_zero [] = []
until_zero (b ∷ bytes) = let later = until_zero bytes in if b == 0 then [] else b ∷ later

abbrev pub extract_string : Bytes → ℕ → ℕ → Bytes
extract_string frame offset max_len =
    if leb (length frame) offset
    then []
    else until_zero (slice frame offset (min max_len (length frame - offset)))

abbrev pub push_string : Bytes → List Bytes → List Bytes
push_string [] strings = strings
push_string text strings = text ∷ strings

abbrev pub read_extensions : ℕ → Bytes → ℕ → List Bytes
read_extensions zero frame i = []
read_extensions (suc left) frame i =
    push_string (extract_string frame (6 + 30 + 10 + i * 30) 30)
      (read_extensions left frame (i + 1))

unfoldable pub ver_deserialize : MonVer → Bytes → Result MonVer
ver_deserialize old frame = do
  low ← read_at frame 4
  high ← read_at frame 5
  let payload_len = low + 256 * high
  if ltb payload_len (30 + 10)
      then ok old
      else ok (record {
        sw_version = extract_string frame 6 30;
        hw_version = extract_string frame (6 + 30) 10;
        extensions = read_extensions ((payload_len - 30 - 10) / 30) frame 0;
      })
