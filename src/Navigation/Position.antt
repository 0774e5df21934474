-- ===== src/Navigation/Position.antt =====
-- `deserialize` of src/ublox/ubxmsg/UBX_NAV_PVT.hpp, UBX_NAV_DOP.hpp and UBX_TIM_TM2.hpp, one
-- helper for each part of the record, in the order of the source's reads.
use gnsshat.Base.{
  ℕ, ◌/◌, ◌%◌, ◌||◌, pos, Bytes, Result, ok, ◌>>=◌, ◌==◌, if◌then◌else◌, read_at, read_le,
}
use gnsshat.Navigation.Types.{
  ratio, hundredths, get_bit, read_int, Utc, Date, PositionVelocityTime, DilutionOverPrecision,
  TimeMark,
}

abbrev pub read_date : Bytes → Result Date
read_date frame = do
  day ← read_at frame 13
  month ← read_at frame 12
  year ← read_le 2 frame 10
  flags ← read_at frame 17
  ok (record { day = day; month = month; year = year; valid = get_bit flags 1 })

abbrev pub read_utc : Bytes → Result Utc
read_utc frame = do
  hh ← read_at frame 14
  mm ← read_at frame 15
  ss ← read_at frame 16
  flags ← read_at frame 17
  accuracy ← read_int 4 32 frame 18
  ok (record { hh = hh; mm = mm; ss = ss; valid = get_bit flags 0; accuracy = accuracy })

-- `EFixQuality` from `EFixType` and the flags.
abbrev pub fix_quality_of : ℕ → ℕ → ℕ
fix_quality_of fix_type flags =
    if get_bit flags 6
    then 5
    else if get_bit flags 7
    then 4
    else if get_bit flags 1
    then 2
    else if fix_type == 2 || fix_type == 3
    then 1
    else if fix_type == 1
    then 6
    else 0

abbrev pub read_place : Bytes → Utc → Date → ℕ → ℕ → ℕ → Result PositionVelocityTime
read_place frame utc date fix_type flags visible_satellites = do
  longitude ← read_int 4 32 frame 30
  latitude ← read_int 4 32 frame 34
  altitude ← read_int 4 32 frame 38
  altitude_msl ← read_int 4 32 frame 42
  horizontal_accuracy ← read_le 4 frame 46
  vertical_accuracy ← read_le 4 frame 50
  speed_over_ground ← read_int 4 32 frame 66
  heading ← read_int 4 32 frame 70
  speed_accuracy ← read_le 4 frame 74
  heading_accuracy ← read_le 4 frame 78
  ok (record {
    fix_quality = fix_quality_of fix_type flags;
    fix_status = flags % 2;
    fix_type = fix_type;
    utc = utc;
    date = date;
    altitude = ratio altitude 1000;
    altitude_msl = ratio altitude_msl 1000;
    latitude = ratio latitude 10000000;
    longitude = ratio longitude 10000000;
    speed_over_ground = ratio speed_over_ground 1000;
    speed_accuracy = ratio (pos speed_accuracy) 1000;
    heading = ratio heading 100000;
    heading_accuracy = ratio (pos heading_accuracy) 100000;
    visible_satellites = visible_satellites;
    horizontal_accuracy = ratio (pos horizontal_accuracy) 1000;
    vertical_accuracy = ratio (pos vertical_accuracy) 1000;
  })

unfoldable pub pvt_deserialize : Bytes → Result PositionVelocityTime
pvt_deserialize frame = do
  date ← read_date frame
  utc ← read_utc frame
  fix_type ← read_at frame 26
  flags ← read_at frame 27
  visible_satellites ← read_at frame 29
  read_place frame utc date fix_type flags visible_satellites

unfoldable pub dop_deserialize : Bytes → Result DilutionOverPrecision
dop_deserialize frame = do
  geometric ← read_le 2 frame 10
  position ← read_le 2 frame 12
  time ← read_le 2 frame 14
  vertical ← read_le 2 frame 16
  horizontal ← read_le 2 frame 18
  northing ← read_le 2 frame 20
  easting ← read_le 2 frame 22
  ok (record {
    geometric = hundredths geometric;
    position = hundredths position;
    time = hundredths time;
    vertical = hundredths vertical;
    horizontal = hundredths horizontal;
    northing = hundredths northing;
    easting = hundredths easting;
  })

unfoldable pub time_mark_deserialize : Bytes → Result TimeMark
time_mark_deserialize frame = do
  channel ← read_at frame 6
  flags ← read_at frame 7
  count ← read_le 2 frame 8
  week_number_rising ← read_le 2 frame 10
  week_number_falling ← read_le 2 frame 12
  tow_rising_ms ← read_le 4 frame 14
  tow_sub_rising_ns ← read_le 4 frame 18
  tow_falling_ms ← read_le 4 frame 22
  tow_sub_falling_ns ← read_le 4 frame 26
  accuracy_estimate_ns ← read_le 4 frame 30
  ok (record {
    channel = channel;
    mode = flags % 2;
    run = flags / 2 % 2;
    new_falling_edge = get_bit flags 2;
    time_base = flags / 8 % 4;
    utc_available = get_bit flags 5;
    time_valid = get_bit flags 6;
    new_rising_edge = get_bit flags 7;
    count = count;
    week_number_rising = week_number_rising;
    week_number_falling = week_number_falling;
    tow_rising_ms = tow_rising_ms;
    tow_sub_rising_ns = tow_sub_rising_ns;
    tow_falling_ms = tow_falling_ms;
    tow_sub_falling_ns = tow_sub_falling_ns;
    accuracy_estimate_ns = accuracy_estimate_ns;
  })
