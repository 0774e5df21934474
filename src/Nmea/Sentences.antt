-- ===== src/Nmea/Sentences.antt =====
-- The sentences of src/ublox/NmeaForwarder.cpp that need no list of satellites.
use gnsshat.Base.{ℕ, ◌%◌, Bool, [], ◌∷◌, ◌++◌, ◌==◌, if◌then◌else◌}
use gnsshat.Navigation.Types.{Real}
use gnsshat.Navigation.Store.{NavigationStore}
use gnsshat.Nmea.Text.{Text, text, decimal, padded, framed_sentence}

-- The operations on floating-point values, and their printing with a number of digits after the
-- point: the integer part and the minutes of the absolute value of an angle, the test for the
-- hemisphere, a difference, and the two products with a constant.
pub record Floats : Type 0 where
  pub fixed : ℕ → Real → Text
  pub degrees : Real → ℕ
  pub minutes : Real → Real
  pub is_positive : Real → Bool
  pub difference : Real → Real → Real
  pub to_knots : Real → Real
  pub to_deviation : Real → Real

abbrev pub comma : Text
comma = 44 ∷ []

unfoldable pub format_time : NavigationStore → Text
format_time nav =
    let utc = nav.pvt.utc in
    if utc.valid
    then padded 2 (decimal utc.hh) ++ (padded 2 (decimal utc.mm) ++ padded 2 (decimal utc.ss))
    else []

unfoldable pub format_date : NavigationStore → Text
format_date nav =
    let date = nav.pvt.date in
    if date.valid
    then padded 2 (decimal date.day)
      ++ (padded 2 (decimal date.month) ++ padded 2 (decimal (date.year % 100)))
    else []

unfoldable pub generate_zda : NavigationStore → Text
generate_zda nav =
    let date = nav.pvt.date in
    framed_sentence (
      text "GNZDA,"
      ++ (format_time nav
          ++ (comma
              ++ ((if date.valid
                    then padded 2 (decimal date.day)
                      ++ (comma
                          ++ (padded 2 (decimal date.month)
                              ++ (comma ++ (decimal date.year ++ comma))))
                    else text ",,,,")
                  ++ text "00,00"))))

module _ (floats : Floats) where
  unfoldable pub format_latitude : Real → Text
  format_latitude lat =
      padded 2 (decimal (floats.degrees lat)) ++ padded 8 (floats.fixed 5 (floats.minutes lat))

  unfoldable pub format_longitude : Real → Text
  format_longitude lon =
      padded 3 (decimal (floats.degrees lon)) ++ padded 8 (floats.fixed 5 (floats.minutes lon))

  -- Both coordinates with their hemispheres.
  abbrev pub coordinates : NavigationStore → Text
  unfolding format_latitude format_longitude
  coordinates nav =
      format_latitude nav.pvt.latitude
      ++ (comma
          ++ ((if floats.is_positive nav.pvt.latitude then text "N," else text "S,")
              ++ (format_longitude nav.pvt.longitude
                  ++ (comma
                      ++ (if floats.is_positive nav.pvt.longitude then text "E," else text "W,")))))

  unfoldable pub generate_gga : NavigationStore → Text
  generate_gga nav = framed_sentence (
      text "GNGGA,"
      ++ (format_time nav
          ++ (comma
              ++ (coordinates nav
                  ++ (decimal nav.pvt.fix_quality
                      ++ (comma
                          ++ (decimal nav.pvt.visible_satellites
                              ++ (comma
                                  ++ (floats.fixed 1 nav.dop.horizontal
                                      ++ (comma
                                          ++ (floats.fixed 1 nav.pvt.altitude_msl
                                              ++ (text ",M,"
                                                  ++ (floats.fixed 1 (
                                                        floats.difference nav.pvt.altitude
                                                          nav.pvt.altitude_msl)
                                                      ++ text ",M,,")))))))))))))

  unfoldable pub generate_rmc : NavigationStore → Text
  generate_rmc nav = framed_sentence (
      text "GNRMC,"
      ++ (format_time nav
          ++ (comma
              ++ ((if nav.pvt.fix_status == 1 then text "A," else text "V,")
                  ++ (coordinates nav
                      ++ (floats.fixed 1 (floats.to_knots nav.pvt.speed_over_ground)
                          ++ (comma
                              ++ (floats.fixed 1 nav.pvt.heading
                                  ++ (comma ++ (format_date nav ++ text ",,,"))))))))))

  unfoldable pub generate_gst : NavigationStore → Text
  generate_gst nav =
      let deviation = floats.fixed 3 (floats.to_deviation nav.pvt.horizontal_accuracy) in
      framed_sentence (
        text "GNGST,"
        ++ (format_time nav
            ++ (comma
                ++ (text ",,,,"
                    ++ (deviation
                        ++ (comma
                            ++ (deviation
                                ++ (comma ++ floats.fixed 3 nav.pvt.vertical_accuracy))))))))
