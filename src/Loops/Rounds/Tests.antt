-- ===== src/Loops/Rounds/Tests.antt =====
-- A frame of UBX-ACK-ACK that an F10T sends in three pieces, and a timeout behind it.
use gnsshat.Base.{◌≡◌, List, [], ◌∷◌, Bytes, arith}
use gnsshat.Dispatch.Samples.{idle}
use gnsshat.Loops.Rounds.{RunLoop, f10t_execute_all}
use gnsshat.Loops.Rounds.Pieces.{f10t_execute_all-joined}

abbrev start : RunLoop
start = record { receiver = idle; kept = []; notifications = 0 }

abbrev pieces : List Bytes
pieces = (0xB5 ∷ []) ∷ (0x62 ∷ 0x05 ∷ 0x01 ∷ 0x02 ∷ []) ∷ []

abbrev last : Bytes
last = 0x00 ∷ 0x06 ∷ 0x8B ∷ 0x99 ∷ 0xC1 ∷ []

f10t_execute_all-joined_example :
    f10t_execute_all start ((0xB5 ∷ []) ∷ (0x62 ∷ 0x05 ∷ 0x01 ∷ 0x02 ∷ []) ∷ last ∷ [] ∷ [])
    ≡ f10t_execute_all start
        ((0xB5 ∷ 0x62 ∷ 0x05 ∷ 0x01 ∷ 0x02 ∷ 0x00 ∷ 0x06 ∷ 0x8B ∷ 0x99 ∷ 0xC1 ∷ []) ∷ [] ∷ [])
f10t_execute_all-joined_example =
    f10t_execute_all-joined start pieces last ([] ∷ []) ((λ e. absurd cc), ((λ e. absurd cc), tt))
      (λ e. absurd cc) (omega arith)
