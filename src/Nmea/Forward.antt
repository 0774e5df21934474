-- ===== src/Nmea/Forward.antt =====
-- One round of `forwardingThread` of src/ublox/NmeaForwarder.cpp, after the notifier let it go on.
use gnsshat.Base.{Option, none, some, [], ◌∷◌, ◌++◌, same_bytes, if◌then◌else◌}
use gnsshat.Navigation.Store.{NavigationStore}
use gnsshat.Nmea.Text.{Text}
use gnsshat.Nmea.Sentences.{
  Floats, format_time, format_date, generate_gga, generate_rmc, generate_gst, generate_zda,
}
use gnsshat.Nmea.Satellites.{generate_gsa, generate_gsv}

module _ (floats : Floats) where
  -- `combined`.
  unfoldable pub combined : NavigationStore → Text
  combined nav =
      generate_gga floats nav
      ++ (generate_gsa floats nav
          ++ (generate_gsv nav
              ++ (generate_gst floats nav ++ (generate_rmc floats nav ++ generate_zda nav))))

  -- What is written, if anything, and `lastEpoch_` after the round. Without a valid time the
  -- sentences are written in each round.
  abbrev pub forward_at : Text → NavigationStore → Text → Option Text × Text
  unfolding combined
  forward_at [] nav last_epoch = (some (combined nav), last_epoch)
  forward_at (c ∷ time) nav last_epoch =
      let epoch = (c ∷ time) ++ format_date nav in
      if same_bytes epoch last_epoch then (none, last_epoch) else (some (combined nav), epoch)

  unfoldable pub forward : NavigationStore → Text → Option Text × Text
  forward nav last_epoch = forward_at (format_time nav) nav last_epoch
