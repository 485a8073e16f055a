-- ===== src/CsvWriter/Tests.antt =====
-- Lines that the writer writes.
use cancept.Prelude.{ℕ, ◌≡◌, refl, true, false, [], ◌∷◌, Bytes, codes, equal, starts_with}
use cancept.Prelude.Int.{ℤ, pos}
use cancept.Core.Sample.{whole}
use cancept.CsvWriter.{new_writer, write_raw, write_dbc}

abbrev seconds : ℕ → ℤ → Bytes
seconds decimals x = codes "5.0"

a_frame :
    (write_raw whole seconds
      (record { receive_time = pos 5; payload = 171 ∷ 2 ∷ 0 ∷ []; message_id = 18; dlc = 2 })
      (new_writer true false (codes "Time" ∷ []))).lines
    ≡ codes "Time" ∷ codes "5.0,1,0x012,Rx,2,2,AB 02" ∷ []
unfolding write_raw new_writer
a_frame = refl

some_values :
    (write_dbc whole seconds
      (record {
        receive_time = pos 5;
        signal_values = record { name = codes "v"; value = pos 1 } ∷ [];
        message_id = 18;
      })
      (new_writer true true (codes "Time" ∷ codes "u" ∷ codes "v" ∷ []))).lines
    ≡ codes "Time,MsgID,u,v" ∷ codes "5.0,0x012,-,5.0" ∷ []
unfolding write_dbc new_writer equal starts_with
some_values = refl
