-- ===== src/CanConverter.antt =====
-- `can_stream/can_converter.cpp`: the export of a recorded file. The reader of the source file is an
-- argument, with what it returns.
use cancept.Prelude.{
  ℕ, Bool, true, false, List, [], ◌∷◌, map, Option, none, some, Bytes, codes, equal, if◌then◌else◌,
}
use cancept.Core.Float.{Float}
use cancept.Core.Dto.{RawCanMessage, DbcCanMessage}
use cancept.CsvWriter.{CsvWriter, new_writer, write_raw, write_dbc, close}
pub mod DbcExport
pub mod Export
mod Tests

pub data ExportType : Type 0 where
  csv : ExportType
  mdf4 : ExportType

-- What the reader of the source returns: whether it opens the file, the type, the headers, and the
-- frames that `read` yields before it fails.
pub record Source (D : Type 0) : Type 0 where
  pub can_open : Bool
  pub is_dbc : Bool
  pub column_headers : List Bytes
  pub raw_frames : List RawCanMessage
  pub dbc_frames : List (DbcCanMessage D)

abbrev pub display_names : List (Bytes × Bytes)
display_names =
    (codes "t", codes "Time (s)")
    ∷ (codes "CAN_DataFrame.BusChannel", codes "Channel")
    ∷ (codes "CAN_DataFrame.ID", codes "ID")
    ∷ (codes "CAN_DataFrame.Dir", codes "Direction")
    ∷ (codes "CAN_DataFrame.DLC", codes "DLC")
    ∷ (codes "CAN_DataFrame.DataLength", codes "Data Length")
    ∷ (codes "CAN_DataFrame.DataBytes", codes "Data")
    ∷ []

unfoldable pub named_in : Bytes → List (Bytes × Bytes) → Bytes
unfolding equal
named_in raw [] = raw
named_in raw ((name, shown) ∷ names) =
    let rest = named_in raw names in if equal name raw then shown else rest

unfoldable pub to_display_name : Bytes → Bytes
unfolding named_in
to_display_name raw = named_in raw display_names

module _ (F : Float) (format : ℕ → Float.Real F → Bytes) where
  open F use {Real}

  -- `while (reader.read(msg)) writer.write(msg)`
  unfoldable pub write_raw_all : List RawCanMessage → CsvWriter → CsvWriter
  unfolding write_raw
  write_raw_all [] w = w
  write_raw_all (m ∷ ms) w = write_raw_all ms (write_raw F format m w)

  unfoldable pub write_dbc_all : List (DbcCanMessage Real) → CsvWriter → CsvWriter
  unfolding write_dbc
  write_dbc_all [] w = w
  write_dbc_all (m ∷ ms) w = write_dbc_all ms (write_dbc F format m w)

  -- The path that is returned, and the file if this code writes one. `copied` is whether the copy
  -- of the file succeeds, `can_write` whether the target can be opened.
  unfoldable pub convert : Bytes → ExportType → Bool → Bool → Source Real → Bytes × Option CsvWriter
  unfolding to_display_name new_writer write_raw_all write_dbc_all close
  convert target mdf4 copied can_write source = (if copied then target else [], none)
  convert target csv copied can_write source = elim source.can_open [
    | false ↦ ([], none)
    | true ↦
        (let writer =
            new_writer can_write source.is_dbc (map to_display_name source.column_headers) in
          elim writer.opened [
            | false ↦ ([], none)
            | true ↦
                (let written : CsvWriter = elim source.is_dbc [
                  | false ↦ write_raw_all source.raw_frames writer
                  | true ↦ write_dbc_all source.dbc_frames writer
                ] in
                  (target, some (close written)))
          ])
  ]
