-- ===== src/Legacy/Timepulse5.antt =====
-- `Timepulse5` and `UBX_CFG_TP5` of src/ublox/ubxmsg/UBX_CFG_TP5.hpp. The signed delays are held
-- as the words of 16 and 32 bits that `readLE` reads.
use gnsshat.Base.{
  ℕ, ◌+◌, ◌-◌, ◌*◌, ◌/◌, ◌%◌, ◌^◌, Bool, [], ◌∷◌, ◌++◌, Bytes, Result, ok, err, invalid_frame_size,
  ◌>>=◌, ltb, if◌then◌else◌, length, drop, read_at, read_le, to_le,
}
use gnsshat.Messages.Framing.{build_frame}
use gnsshat.Navigation.Types.{get_bit}

pub record Timepulse5 : Type 0 where
  pub tp_idx : ℕ
  pub ant_cable_delay : ℕ
  pub rf_group_delay : ℕ
  pub freq_period : ℕ
  pub freq_period_lock : ℕ
  pub pulse_len_ratio : ℕ
  pub pulse_len_ratio_lock : ℕ
  pub user_config_delay : ℕ
  pub active : Bool
  pub lock_gps_freq : Bool
  pub locked_other_set : Bool
  pub is_freq : Bool
  pub is_length : Bool
  pub allign_to_tow : Bool
  pub polarity : Bool
  pub grid_utc_gps : Bool

-- `setBit` on an unsigned word that has the place.
abbrev pub set_bit : ℕ → ℕ → Bool → ℕ
set_bit val place bit = val - val / 2 ^ place % 2 * 2 ^ place + (if bit then 2 ^ place else 0)

abbrev pub timepulse_flags : Timepulse5 → ℕ
timepulse_flags tp =
    let f0 = set_bit 0 0 tp.active in
    let f1 = set_bit f0 1 tp.lock_gps_freq in
    let f2 = set_bit f1 2 tp.locked_other_set in
    let f3 = set_bit f2 3 tp.is_freq in
    let f4 = set_bit f3 4 tp.is_length in
    let f5 = set_bit f4 5 tp.allign_to_tow in
    let f6 = set_bit f5 6 tp.polarity in set_bit f6 7 tp.grid_utc_gps

abbrev pub timepulse_serialize : Timepulse5 → Bytes
timepulse_serialize tp =
    (tp.tp_idx ∷ 0x00 ∷ 0x00 ∷ 0x00 ∷ [])
    ++ (to_le 2 tp.ant_cable_delay
        ++ (to_le 2 tp.rf_group_delay
            ++ (to_le 4 tp.freq_period
                ++ (to_le 4 tp.freq_period_lock
                    ++ (to_le 4 tp.pulse_len_ratio
                        ++ (to_le 4 tp.pulse_len_ratio_lock
                            ++ (to_le 4 tp.user_config_delay ++ to_le 4 (timepulse_flags tp))))))))

unfoldable pub timepulse_deserialize : Bytes → Result Timepulse5
timepulse_deserialize bytes = do
  tp_idx ← read_at bytes 0
  ant_cable_delay ← read_le 2 bytes 4
  rf_group_delay ← read_le 2 bytes 6
  freq_period ← read_le 4 bytes 8
  freq_period_lock ← read_le 4 bytes 12
  pulse_len_ratio ← read_le 4 bytes 16
  pulse_len_ratio_lock ← read_le 4 bytes 20
  user_config_delay ← read_le 4 bytes 24
  flags ← read_le 4 bytes 28
  ok (record {
    tp_idx = tp_idx;
    ant_cable_delay = ant_cable_delay;
    rf_group_delay = rf_group_delay;
    freq_period = freq_period;
    freq_period_lock = freq_period_lock;
    pulse_len_ratio = pulse_len_ratio;
    pulse_len_ratio_lock = pulse_len_ratio_lock;
    user_config_delay = user_config_delay;
    active = get_bit flags 0;
    lock_gps_freq = get_bit flags 1;
    locked_other_set = get_bit flags 2;
    is_freq = get_bit flags 3;
    is_length = get_bit flags 4;
    allign_to_tow = get_bit flags 5;
    polarity = get_bit flags 6;
    grid_utc_gps = get_bit flags 7;
  })

unfoldable pub tp5_serialize : Timepulse5 → Result Bytes
tp5_serialize tp =
    let payload = timepulse_serialize tp in
    build_frame ((0xB5 ∷ 0x62 ∷ 0x06 ∷ 0x31 ∷ (length payload % 256) ∷ 0x00 ∷ []) ++ payload)

-- The subspan has the payload, `readLE` does not check its end: what follows it in the frame, the
-- two bytes of the checksum, can be read.
unfoldable pub tp5_deserialize : Bytes → Result Timepulse5
tp5_deserialize frame =
    if ltb (length frame) 34 then err invalid_frame_size else timepulse_deserialize (drop 6 frame)
