-- ===== src/Legacy/Port.antt =====
-- The parts of src/ublox/ubxmsg/UBX_CFG_PRT.hpp.
use gnsshat.Base.{
  ℕ, ◌/◌, ◌%◌, Bool, Bytes, Result, ok, err, frame_too_short, unknown_port_type, ◌>>=◌, ltb, ◌==◌,
  ◌||◌, if◌then◌else◌, length, read_at, read_le,
}
use gnsshat.Navigation.Types.{get_bit}

-- `threshold` is a `uint8_t`.
pub record TxReady : Type 0 where
  pub enable : Bool
  pub polarity : Bool
  pub pin : ℕ
  pub threshold : ℕ

pub record ProtoMask : Type 0 where
  pub ubx : Bool
  pub nmea : Bool
  pub rtcm : Bool
  pub rtcm3 : Bool

-- `Mode` of a port: an SPI port has the mode and `ffCnt`, a UART the three others.
pub data Mode : Type 0 where
  spi_mode : ℕ → ℕ → Mode
  uart_mode : ℕ → ℕ → ℕ → Mode

-- The port's identifier and, for a UART, its baud rate.
pub data Port : Type 0 where
  spi : Port
  uart : ℕ → ℕ → Port

pub record PortConfig : Type 0 where
  pub port : Port
  pub tx_ready : TxReady
  pub mode : Mode
  pub in_proto_mask : ProtoMask
  pub out_proto_mask : ProtoMask
  pub extended_tx_timeout : Bool

-- Each part at its offset in the frame.
unfoldable pub read_tx_ready : Bytes → ℕ → Result TxReady
read_tx_ready frame offset = do
  word ← read_le 2 frame offset
  ok (record {
    enable = get_bit word 0;
    polarity = get_bit word 1;
    pin = word / 4 % 64;
    threshold = word / 128 % 512 % 256;
  })

unfoldable pub read_proto_mask : Bytes → ℕ → Result ProtoMask
read_proto_mask frame offset = do
  word ← read_le 2 frame offset
  ok (record {
    ubx = get_bit word 0;
    nmea = get_bit word 1;
    rtcm = get_bit word 2;
    rtcm3 = get_bit word 5;
  })

unfoldable pub read_flags : Bytes → ℕ → Result Bool
read_flags frame offset = do word ← read_le 2 frame offset; ok (get_bit word 1)

unfoldable pub read_spi_mode : Bytes → ℕ → Result Mode
read_spi_mode frame offset = do
  word ← read_le 4 frame offset
  ok (spi_mode (word / 2 % 4) (word / 256 % 64))

unfoldable pub read_uart_mode : Bytes → ℕ → Result Mode
read_uart_mode frame offset = do
  word ← read_le 4 frame offset
  ok (uart_mode (word / 64 % 4) (word / 512 % 8) (word / 4096 % 4))

unfoldable pub spi_deserialize : Bytes → Result PortConfig
spi_deserialize frame = do
  tx_ready ← read_tx_ready frame 8
  mode ← read_spi_mode frame 10
  in_proto_mask ← read_proto_mask frame 18
  out_proto_mask ← read_proto_mask frame 20
  extended ← read_flags frame 22
  ok (record {
    port = spi;
    tx_ready = tx_ready;
    mode = mode;
    in_proto_mask = in_proto_mask;
    out_proto_mask = out_proto_mask;
    extended_tx_timeout = extended;
  })

unfoldable pub uart_deserialize : ℕ → Bytes → Result PortConfig
uart_deserialize id frame = do
  tx_ready ← read_tx_ready frame 8
  mode ← read_uart_mode frame 10
  baudrate ← read_le 4 frame 14
  in_proto_mask ← read_proto_mask frame 18
  out_proto_mask ← read_proto_mask frame 20
  extended ← read_flags frame 22
  ok (record {
    port = uart id baudrate;
    tx_ready = tx_ready;
    mode = mode;
    in_proto_mask = in_proto_mask;
    out_proto_mask = out_proto_mask;
    extended_tx_timeout = extended;
  })

abbrev pub deserialize_port : Bytes → ℕ → Result PortConfig
deserialize_port frame id =
    if id == 4
    then spi_deserialize frame
    else if id == 1 || id == 2
    then uart_deserialize id frame
    else err (unknown_port_type id)

unfoldable pub port_deserialize : Bytes → Result PortConfig
port_deserialize frame =
    if ltb (length frame) 9
    then err frame_too_short
    else (do id ← read_at frame 6; deserialize_port frame id)
