-- ===== src/Navigation/Bounds.antt =====
-- The frame lengths that the deserializers of src/ublox/ubxmsg need.
use gnsshat.Base.{
  HasValue, ◌≤◌, ◌↔◌, inl, inr, ltb, ltb→le, Bool-cases, ℕ, suc, ◌+◌, ◌*◌, ℤ, arith, length, Bytes,
  Result, ◌>>=◌, Needs, Needs-bind, Needs-guard, out_of_bounds, Needs-byte, Needs-word, there,
}
use gnsshat.Navigation.Types.{SystemHealth, read_int, Utc, Date}
use gnsshat.Navigation.Position.{
  pvt_deserialize, dop_deserialize, time_mark_deserialize, read_date, read_utc, read_place,
}
use gnsshat.Navigation.Monitor.{
  read_rf_block, copy_spectrum, read_spectrum, sys_deserialize, read_system_health,
}
use gnsshat.Navigation.Satellites.{read_satellite}

module _ (frame : Bytes) where
  Needs-read_int :
      (size bits offset : ℕ)
      → Needs (offset + suc size) (length frame) (read_int (suc size) bits frame offset)
  unfolding read_int
  Needs-read_int size bits offset = Needs-word frame offset _ size (omega arith) (λ v h. there h)

  Needs-int {κ} :
      {B : Type κ} (offset : ℕ) {n : ℕ} (f : ℤ → Result B) (size bits : ℕ)
      → offset + suc size ≤ n
      → ((v : ℤ) → offset + suc size ≤ length frame → Needs n (length frame) (f v))
      → Needs n (length frame) (read_int (suc size) bits frame offset >>= f)
  Needs-int offset f size bits less rest =
      Needs-bind (read_int (suc size) bits frame offset) f (Needs-read_int size bits offset) less
        rest

  pub Needs-dop_deserialize : Needs 24 (length frame) (dop_deserialize frame)
  unfolding dop_deserialize
  Needs-dop_deserialize = Needs-word frame 10 _ 1 (omega arith) (λ _ _.
      Needs-word frame 12 _ 1 (omega arith) (λ _ _. Needs-word frame 14 _ 1 (omega arith) (λ _ _.
        Needs-word frame 16 _ 1 (omega arith) (λ _ _. Needs-word frame 18 _ 1 (omega arith) (λ _ _.
          Needs-word frame 20 _ 1 (omega arith)
            (λ _ _. Needs-word frame 22 _ 1 (omega arith) (λ _ h. there h)))))))

  pub Needs-time_mark_deserialize : Needs 34 (length frame) (time_mark_deserialize frame)
  unfolding time_mark_deserialize
  Needs-time_mark_deserialize = Needs-byte frame 6 _ (omega arith) (λ _ _.
      Needs-byte frame 7 _ (omega arith) (λ _ _. Needs-word frame 8 _ 1 (omega arith) (λ _ _.
        Needs-word frame 10 _ 1 (omega arith) (λ _ _. Needs-word frame 12 _ 1 (omega arith) (λ _ _.
          Needs-word frame 14 _ 3 (omega arith) (λ _ _.
            Needs-word frame 18 _ 3 (omega arith) (λ _ _.
              Needs-word frame 22 _ 3 (omega arith) (λ _ _.
                Needs-word frame 26 _ 3 (omega arith)
                  (λ _ _. Needs-word frame 30 _ 3 (omega arith) (λ _ h. there h))))))))))

  Needs-read_date : Needs 18 (length frame) (read_date frame)
  Needs-read_date = Needs-byte frame 13 _ (omega arith) (λ _ _.
      Needs-byte frame 12 _ (omega arith) (λ _ _.
        Needs-word frame 10 _ 1 (omega arith)
          (λ _ _. Needs-byte frame 17 _ (omega arith) (λ _ h. there (omega arith)))))

  Needs-read_utc : Needs 22 (length frame) (read_utc frame)
  Needs-read_utc = Needs-byte frame 14 _ (omega arith) (λ _ _.
      Needs-byte frame 15 _ (omega arith) (λ _ _. Needs-byte frame 16 _ (omega arith) (λ _ _.
        Needs-byte frame 17 _ (omega arith)
          (λ _ _. Needs-int 18 _ 3 32 (omega arith) (λ _ h. there h)))))

  Needs-read_place :
      (utc : Utc) (date : Date) (fix_type flags visible : ℕ)
      → Needs 82 (length frame) (read_place frame utc date fix_type flags visible)
  Needs-read_place utc date fix_type flags visible = Needs-int 30 _ 3 32 (omega arith) (λ _ _.
      Needs-int 34 _ 3 32 (omega arith) (λ _ _. Needs-int 38 _ 3 32 (omega arith) (λ _ _.
        Needs-int 42 _ 3 32 (omega arith) (λ _ _. Needs-word frame 46 _ 3 (omega arith) (λ _ _.
          Needs-word frame 50 _ 3 (omega arith) (λ _ _. Needs-int 66 _ 3 32 (omega arith) (λ _ _.
            Needs-int 70 _ 3 32 (omega arith) (λ _ _.
              Needs-word frame 74 _ 3 (omega arith)
                (λ _ _. Needs-word frame 78 _ 3 (omega arith) (λ _ h. there h))))))))))

  pub Needs-pvt_deserialize : Needs 82 (length frame) (pvt_deserialize frame)
  unfolding pvt_deserialize
  Needs-pvt_deserialize = Needs-bind (read_date frame) _ Needs-read_date (omega arith) (λ date _.
      Needs-bind (read_utc frame) _ Needs-read_utc (omega arith) (λ utc _.
        Needs-byte frame 26 _ (omega arith) (λ fix_type _.
          Needs-byte frame 27 _ (omega arith) (λ flags _.
            Needs-byte frame 29 _ (omega arith)
              (λ visible _. Needs-read_place utc date fix_type flags visible)))))

  pub Needs-read_satellite :
      (offset : ℕ) → Needs (offset + 12) (length frame) (read_satellite frame offset)
  unfolding read_satellite
  Needs-read_satellite offset = Needs-byte frame (offset + 0) _ (omega arith) (λ _ _.
      Needs-byte frame (offset + 1) _ (omega arith) (λ _ _.
        Needs-byte frame (offset + 2) _ (omega arith) (λ _ _.
          Needs-byte frame (offset + 3) _ (omega arith) (λ _ _.
            Needs-int (offset + 4) _ 1 16 (omega arith) (λ _ _.
              Needs-word frame (offset + 8) _ 3 (omega arith) (λ _ h. there (omega arith)))))))

  pub Needs-read_rf_block : (i : ℕ) → Needs (32 + i * 24) (length frame) (read_rf_block frame i)
  unfolding read_rf_block
  Needs-read_rf_block i = Needs-byte frame (10 + i * 24) _ (omega arith) (λ _ _.
      Needs-byte frame (11 + i * 24) _ (omega arith) (λ _ _.
        Needs-byte frame (12 + i * 24) _ (omega arith) (λ _ _.
          Needs-byte frame (13 + i * 24) _ (omega arith) (λ _ _.
            Needs-word frame (14 + i * 24) _ 3 (omega arith) (λ _ _.
              Needs-word frame (22 + i * 24) _ 1 (omega arith) (λ _ _.
                Needs-word frame (24 + i * 24) _ 1 (omega arith) (λ _ _.
                  Needs-byte frame (26 + i * 24) _ (omega arith) (λ _ _.
                    Needs-byte frame (27 + i * 24) _ (omega arith) (λ _ _.
                      Needs-byte frame (28 + i * 24) _ (omega arith) (λ _ _.
                        Needs-byte frame (29 + i * 24) _ (omega arith) (λ _ _.
                          Needs-byte frame (30 + i * 24) _ (omega arith) (λ _ _.
                            Needs-byte frame (31 + i * 24) _ (omega arith)
                              (λ _ h. there (omega arith))))))))))))))

  pub Needs-read_system_health : Needs 25 (length frame) (read_system_health frame)
  Needs-read_system_health = Needs-byte frame 6 _ (omega arith) (λ _ _.
      Needs-byte frame 7 _ (omega arith) (λ _ _. Needs-byte frame 8 _ (omega arith) (λ _ _.
        Needs-byte frame 9 _ (omega arith) (λ _ _. Needs-byte frame 10 _ (omega arith) (λ _ _.
          Needs-byte frame 11 _ (omega arith) (λ _ _. Needs-byte frame 12 _ (omega arith) (λ _ _.
            Needs-byte frame 13 _ (omega arith) (λ _ _.
              Needs-word frame 14 _ 3 (omega arith) (λ _ _.
                Needs-word frame 18 _ 1 (omega arith) (λ _ _.
                  Needs-word frame 20 _ 1 (omega arith) (λ _ _.
                    Needs-word frame 22 _ 1 (omega arith)
                      (λ _ _. Needs-byte frame 24 _ (omega arith) (λ _ h. there h)))))))))))))

  Needs-copy_spectrum :
      (offset : ℕ) → Needs (offset + 256) (length frame) (copy_spectrum frame offset)
  Needs-copy_spectrum offset = Needs-guard (offset + 256) out_of_bounds _ (λ fits. there fits)

  pub Needs-read_spectrum : (i : ℕ) → Needs (279 + i * 272) (length frame) (read_spectrum frame i)
  unfolding read_spectrum
  Needs-read_spectrum i =
      Needs-bind (copy_spectrum frame (10 + i * 272)) _ (Needs-copy_spectrum (10 + i * 272))
        (omega arith)
        (λ _ _. Needs-word frame (10 + 256 + i * 272) _ 3 (omega arith) (λ _ _.
          Needs-word frame (14 + 256 + i * 272) _ 3 (omega arith) (λ _ _.
            Needs-word frame (18 + 256 + i * 272) _ 3 (omega arith) (λ _ _.
              Needs-byte frame (22 + 256 + i * 272) _ (omega arith) (λ _ h. there (omega arith))))))

-- A frame is read into the position, the dilutions of precision and the time mark without a fault
-- exactly when it has 82, 24 and 34 bytes: the deserializers have no test of their own. The system
-- health is read from any frame.
pub deserialize_bounds :
    (frame : Bytes) (health : SystemHealth)
    → (HasValue (pvt_deserialize frame) ↔ (82 ≤ length frame))
      × (HasValue (dop_deserialize frame) ↔ (24 ≤ length frame))
      × (HasValue (time_mark_deserialize frame) ↔ (34 ≤ length frame))
      × HasValue (sys_deserialize health frame)
unfolding sys_deserialize
deserialize_bounds frame health = (
  Needs-pvt_deserialize frame,
  Needs-dop_deserialize frame,
  Needs-time_mark_deserialize frame,
  elim (Bool-cases (ltb (length frame) (6 + 24))) [
    | inl short ↦ rw short tt
    | inr fits ↦
        rw fits ((Needs-read_system_health frame).1 (omega (arith, ltb→le (length frame) 30 fits)))
  ],
)
