-- ===== src/Navigation/Store.antt =====
-- `NavigationStore` of src/ublox/NavigationStore.cpp: one value of each kind, each setter under the
-- lock. `Geofencing::Cfg`, which the public class sets and no message, is left out.
use gnsshat.Base.{List, Option, some}
use gnsshat.Navigation.Types.{
  PositionVelocityTime, DilutionOverPrecision, SatelliteInfo, RfBlock, RfBlockSpectrumData,
  SystemHealth, TimeMark, GeofencingNav, MonVer,
}

pub record NavigationStore : Type 0 where
  pub dop : DilutionOverPrecision
  pub pvt : PositionVelocityTime
  pub geofencing_nav : GeofencingNav
  pub rf_blocks : List RfBlock
  pub rf_blocks_spectrum_data : List RfBlockSpectrumData
  pub satellites : List SatelliteInfo
  pub time_mark : Option TimeMark
  pub mon_ver : MonVer
  pub system_health : SystemHealth

-- The setters.
abbrev pub set_dop : NavigationStore → DilutionOverPrecision → NavigationStore
set_dop store value = record store { dop = value }

abbrev pub set_pvt : NavigationStore → PositionVelocityTime → NavigationStore
set_pvt store value = record store { pvt = value }

abbrev pub set_geofencing_nav : NavigationStore → GeofencingNav → NavigationStore
set_geofencing_nav store value = record store { geofencing_nav = value }

abbrev pub set_rf_blocks : NavigationStore → List RfBlock → NavigationStore
set_rf_blocks store value = record store { rf_blocks = value }

abbrev pub set_spectrum : NavigationStore → List RfBlockSpectrumData → NavigationStore
set_spectrum store value = record store { rf_blocks_spectrum_data = value }

abbrev pub set_satellites : NavigationStore → List SatelliteInfo → NavigationStore
set_satellites store value = record store { satellites = value }

abbrev pub set_mon_ver : NavigationStore → MonVer → NavigationStore
set_mon_ver store value = record store { mon_ver = value }

abbrev pub set_system_health : NavigationStore → SystemHealth → NavigationStore
set_system_health store value = record store { system_health = value }

abbrev pub set_time_mark : NavigationStore → TimeMark → NavigationStore
set_time_mark store value = record store { time_mark = some value }
