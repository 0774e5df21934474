-- ===== src/Legacy/Bounds.antt =====
-- The frame lengths that the deserializers of the legacy configuration messages need.
use gnsshat.Base.{
  ℕ, ◌≤◌, ◌↔◌, ◌⊎◌, inl, inr, ◌≡◌, arith, Bool-cases, ltb→lt, ltb, length, drop, length-drop, Bytes,
  ok, invalid_frame_size, out_of_bounds, HasValue, Needs, Needs-bind, Needs-guard, Needs-byte,
  Needs-word, there, read_at,
}
use gnsshat.Legacy.Simple.{
  rate_deserialize, read_rate, nav5_deserialize, msg_deserialize, copy_rates,
}
use gnsshat.Legacy.Timepulse5.{timepulse_deserialize, tp5_deserialize}
use gnsshat.Legacy.Port.{
  read_tx_ready, read_proto_mask, read_flags, read_spi_mode, read_uart_mode, spi_deserialize,
  uart_deserialize, port_deserialize, deserialize_port,
}

module _ (frame : Bytes) where
  Needs-rate_deserialize : Needs 14 (length frame) (rate_deserialize frame)
  unfolding rate_deserialize
  Needs-rate_deserialize = Needs-guard 14 invalid_frame_size (read_rate frame) (λ h.
      Needs-byte frame 6 _ (omega arith) (λ _ _. Needs-byte frame 7 _ (omega arith) (λ _ _.
        Needs-byte frame 8 _ (omega arith) (λ _ _. Needs-byte frame 9 _ (omega arith) (λ _ _.
          Needs-byte frame 10 _ (omega arith)
            (λ _ _. Needs-byte frame 11 _ (omega arith) (λ _ _. there h)))))))

  Needs-nav5_deserialize : Needs 9 (length frame) (nav5_deserialize frame)
  unfolding nav5_deserialize
  Needs-nav5_deserialize =
      Needs-word frame 6 _ 1 (omega arith)
        (λ _ _. Needs-byte frame 8 _ (omega arith) (λ _ h. there (omega arith)))

  Needs-copy_rates : Needs 14 (length frame) (copy_rates frame)
  Needs-copy_rates = Needs-guard 14 out_of_bounds _ (λ h. there h)

  Needs-msg_deserialize : Needs 14 (length frame) (msg_deserialize frame)
  unfolding msg_deserialize
  Needs-msg_deserialize = Needs-byte frame 6 _ (omega arith) (λ _ _.
      Needs-byte frame 7 _ (omega arith)
        (λ _ _. Needs-bind (copy_rates frame) _ Needs-copy_rates (omega arith) (λ _ h. there h)))

  Needs-timepulse_deserialize : Needs 32 (length frame) (timepulse_deserialize frame)
  unfolding timepulse_deserialize
  Needs-timepulse_deserialize = Needs-byte frame 0 _ (omega arith) (λ _ _.
      Needs-word frame 4 _ 1 (omega arith) (λ _ _. Needs-word frame 6 _ 1 (omega arith) (λ _ _.
        Needs-word frame 8 _ 3 (omega arith) (λ _ _. Needs-word frame 12 _ 3 (omega arith) (λ _ _.
          Needs-word frame 16 _ 3 (omega arith) (λ _ _.
            Needs-word frame 20 _ 3 (omega arith) (λ _ _.
              Needs-word frame 24 _ 3 (omega arith)
                (λ _ _. Needs-word frame 28 _ 3 (omega arith) (λ _ h. there h)))))))))

module _ (frame : Bytes) where
  Needs-spi_deserialize : Needs 24 (length frame) (spi_deserialize frame)
  unfolding spi_deserialize read_tx_ready read_proto_mask read_flags read_spi_mode
  Needs-spi_deserialize =
      Needs-bind (read_tx_ready frame 8) _ (Needs-word frame 8 _ 1 (omega arith) (λ _ h. there h))
        (omega arith)
        (λ _ _.
          Needs-bind (read_spi_mode frame 10) _
            (Needs-word frame 10 _ 3 (omega arith) (λ _ h. there h)) (omega arith)
            (λ _ _.
              Needs-bind (read_proto_mask frame 18) _
                (Needs-word frame 18 _ 1 (omega arith) (λ _ h. there h)) (omega arith)
                (λ _ _.
                  Needs-bind (read_proto_mask frame 20) _
                    (Needs-word frame 20 _ 1 (omega arith) (λ _ h. there h)) (omega arith)
                    (λ _ _.
                      Needs-bind (read_flags frame 22) _
                        (Needs-word frame 22 _ 1 (omega arith) (λ _ h. there h)) (omega arith)
                        (λ _ h. there h)))))

  Needs-uart_deserialize : (id : ℕ) → Needs 24 (length frame) (uart_deserialize id frame)
  unfolding uart_deserialize read_tx_ready read_proto_mask read_flags read_uart_mode
  Needs-uart_deserialize id =
      Needs-bind (read_tx_ready frame 8) _ (Needs-word frame 8 _ 1 (omega arith) (λ _ h. there h))
        (omega arith)
        (λ _ _.
          Needs-bind (read_uart_mode frame 10) _
            (Needs-word frame 10 _ 3 (omega arith) (λ _ h. there h)) (omega arith)
            (λ _ _. Needs-word frame 14 _ 3 (omega arith) (λ _ _.
              Needs-bind (read_proto_mask frame 18) _
                (Needs-word frame 18 _ 1 (omega arith) (λ _ h. there h)) (omega arith)
                (λ _ _.
                  Needs-bind (read_proto_mask frame 20) _
                    (Needs-word frame 20 _ 1 (omega arith) (λ _ h. there h)) (omega arith)
                    (λ _ _.
                      Needs-bind (read_flags frame 22) _
                        (Needs-word frame 22 _ 1 (omega arith) (λ _ h. there h)) (omega arith)
                        (λ _ h. there h))))))

  Needs-tp5_deserialize : Needs 38 (length frame) (tp5_deserialize frame)
  unfolding tp5_deserialize
  Needs-tp5_deserialize = elim (Bool-cases (ltb (length frame) 34)) [
    | inl short ↦
        rw short ((λ v. absurd v), (λ h. absurd (omega (arith, h, ltb→lt (length frame) 34 short))))
    | inr fits ↦
        let (f, g) = Needs-timepulse_deserialize (drop 6 frame) in
        let rest = length-drop 6 frame in
        rw fits ((λ v. omega (arith, f v)), (λ h. g (omega arith)))
  ]

  Needs-deserialize_port :
      (id : ℕ)
      → (id ≡ 4) ⊎ ((id ≡ 1) ⊎ (id ≡ 2))
      → Needs 24 (length frame) (deserialize_port frame id)
  Needs-deserialize_port id (inl e) = rw e Needs-spi_deserialize
  Needs-deserialize_port id (inr (inl e)) = rw e (Needs-uart_deserialize 1)
  Needs-deserialize_port id (inr (inr e)) = rw e (Needs-uart_deserialize 2)

-- For a frame whose seventh byte is 1, 2 or 4, the number of a known port: UBX-CFG-PRT is read
-- without a fault exactly from 24 bytes on, UBX-CFG-TP5 from 38, UBX-CFG-RATE and UBX-CFG-MSG from
-- 14, and UBX-CFG-NAV5 from 9.
pub legacy_deserialize_bounds :
    (frame : Bytes) (id : ℕ)
    → read_at frame 6 ≡ ok id
    → (id ≡ 4) ⊎ ((id ≡ 1) ⊎ (id ≡ 2))
    → (HasValue (port_deserialize frame) ↔ (24 ≤ length frame))
      × (HasValue (tp5_deserialize frame) ↔ (38 ≤ length frame))
      × (HasValue (rate_deserialize frame) ↔ (14 ≤ length frame))
      × (HasValue (msg_deserialize frame) ↔ (14 ≤ length frame))
      × (HasValue (nav5_deserialize frame) ↔ (9 ≤ length frame))
unfolding port_deserialize
legacy_deserialize_bounds frame id e known = (
  elim (Bool-cases (ltb (length frame) 9)) [
    | inl short ↦
        rw short ((λ v. absurd v), (λ h. absurd (omega (arith, h, ltb→lt (length frame) 9 short))))
    | inr fits ↦ rw (fits, e) (Needs-deserialize_port frame id known)
  ],
  Needs-tp5_deserialize frame,
  Needs-rate_deserialize frame,
  Needs-msg_deserialize frame,
  Needs-nav5_deserialize frame,
)
