-- ===== src/CsvReader/Tests.antt =====
-- Runs of the reader on a small file, and an instance of its theorem.
use cancept.Prelude.{
  ◌≡◌, refl, min, List, [], ◌∷◌, some, Bytes, codes, length, leb, drop, equal, starts_with,
}
use cancept.Prelude.Int.{pos, ◌+ℤ◌, ◌*ℤ◌}
use cancept.CsvReader.{new_reader, open_file, seek, read_raw}
use cancept.CsvReader.Position.{records, ahead}
use cancept.CsvReader.Seek.{seek-open_file}

abbrev header : Bytes
header = codes "Time,Chn,ID,Dir,DLC,Name,Data"

abbrev frames : List Bytes
frames = codes "0.5,1,0x10,Rx,2,,01 FF" ∷ [] ∷ codes "12.000001,1,7FF,Rx,3,,0a 0b 0c" ∷ []

seek-open_file_example :
    let q = seek 1 (open_file (some (header ∷ frames)) new_reader).1 in
    (q.0 ≡ leb 1 (length (records frames)))
    × (ahead q.1 ≡ drop (min 1 (length (records frames))) (records frames))
seek-open_file_example = seek-open_file 1 header frames new_reader

second_frame :
    (read_raw (seek 1 (open_file (some (header ∷ frames)) new_reader).1).1).0
    ≡ some (record {
      receive_time = pos 12000001000;
      payload = 10 ∷ 11 ∷ 12 ∷ 0 ∷ 0 ∷ 0 ∷ 0 ∷ 0 ∷ [];
      message_id = 2047;
      dlc = 3;
    })
unfolding read_raw seek open_file new_reader equal starts_with ◌+ℤ◌ ◌*ℤ◌
second_frame = refl
