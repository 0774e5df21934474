-- ===== src/Startup/Samples.antt =====
-- A configuration, and the floating-point operations on whole numbers, for the tests.
use gnsshat.Base.{
  true, false, [], ◌∷◌, none, some, to_le, length-to_le, ℤ, pos, negsuc, word, ltb_int, not,
}
use gnsshat.Config.{Floating, NavigationFilters, ecef, survey_in, fixed_position, base, GnssConfig}

-- Whole numbers in place of the processor's.
abbrev pub whole : Floating
whole = record {
  Real = ℤ;
  to_int32 = λ factor x. word 32 x;
  to_uint32 = λ factor x. word 32 x;
  double_bytes = λ factor x. to_le 8 (word 64 x);
  llround = λ factor x. x;
  above = λ x bound. ltb_int bound x;
  at_least = λ x bound. not (ltb_int x bound);
  below = λ x bound. ltb_int x bound;
  at_most = λ x bound. not (ltb_int bound x);
  length-double_bytes = λ factor x. length-to_le 8 (word 64 x);
}

abbrev pub filters : NavigationFilters
filters = record {
  min_svs = some 5;
  max_svs = some 20;
  min_cno = none;
  min_elev = some (negsuc 4);
  n_cno_thrs = none;
  cno_thrs = none;
  fix_mode = none;
  pdop_mask = none;
  tdop_mask = none;
  p_acc_mask = none;
  t_acc_mask = none;
}

abbrev pub config : GnssConfig ℤ
config = record {
  measurement_rate = 5;
  dynamic_model = 4;
  timepulse_pin_config = record {
    active = true;
    fixed_pulse = record { frequency = 1; pulse_width = pos 0 };
    pulse_when_no_fix = none;
    polarity = 1;
  };
  geofencing = some (record {
    geofences = record { lat = pos 52; lon = pos 21; radius = pos 100 } ∷ [];
    confidence_level = 3;
    pio_pin_polarity = some 1;
  });
  rtk = some (record {
    mode = base;
    base_config = some (fixed_position (ecef (pos 1) (negsuc 250) (pos 3)) (pos 1));
  });
  timing = some (record { enable_time_mark = true; time_base = some (survey_in 60 (pos 2)) });
  navigation_filters = some filters;
  save_to_flash = false;
}
