-- ===== src/Replay.antt =====
-- `sending/worker/replay_producer_worker.cpp` and `sending/sending_functions.hpp`: the thread that
-- reads a recording and puts its frames into the queue with the times at which they are to be sent.
-- What the outside does while a frame waits for its time is an argument; that the thread sleeps has
-- no part in what it puts. A duration is a count of nanoseconds.
use cancept.Prelude.{
  ℕ, zero, suc, ◌+◌, ◌*◌, Bool, true, false, List, [], ◌∷◌, ◌++◌, Option, none, some, replicate,
  take, leb, if◌then◌else◌, codes, Bytes, ◌==◌, ◌&&◌,
}
use cancept.Prelude.Int.{ℤ, pos, ◌+ℤ◌, ◌-ℤ◌, ltb_ℤ, pos_part, neg_part}
use cancept.Core.Float.{Float, std_clamp}
use cancept.Core.Dto.{RawCanMessage, DbcCanMessage}
use cancept.Queue.{ScheduledItem}
use cancept.Manipulation.Random.{Random}
use cancept.Manipulation.Handler.{
  PendingInsertion, FrameResult, RawFrame, ManipulationHandler, inject_raw, inject_dbc, evaluate,
}
pub mod Spread
pub mod Times
pub mod Items
mod Tests

-- A record of a recording, by the type of the file.
pub data Entry (D : Type 0) : Type 0 where
  raw : RawCanMessage → Entry D
  dbc : DbcCanMessage D → Entry D

-- While a frame waits: the lengths of the pauses; or a stop before it is put, or after so many of
-- the items of the frame are put. These are waits that end: one that never does, in a pause that is
-- not resumed or at a queue that stays full, is not modelled.
pub data Wait : Type 0 where
  goes_on : List ℤ → Wait
  stops_waiting : Wait
  stops_pushing : List ℤ → ℕ → Wait

-- The signals that the thread emits.
pub data Signal : Type 0 where
  replay_started : Signal
  replay_finished : Signal
  replay_stopped : Signal
  error_occurred : Signal

-- The members of `ReplayProducerWorker`, without the ones that only wake the thread.
pub record ReplayWorker (F : Float) (S : Type 0) : Type 0 where
  pub factory : Option S
  pub total_frames : ℕ
  pub speed_factor : F.Real
  pub is_active : Bool
  pub should_stop : Bool
  pub is_paused : Bool
  pub scheduled_count : ℕ

module _ {F : Float} {S : Type 0} where
  open F use {Real, strtod, of_ℤ}

  -- When the thread has ended.
  unfoldable pub stop_replay : ReplayWorker F S → ReplayWorker F S
  stop_replay w =
      if w.is_active
      then record w { should_stop = true; is_paused = false; is_active = false }
      else w

  unfoldable pub start_replay : Option S → ℕ → Real → ReplayWorker F S → ReplayWorker F S
  unfolding stop_replay
  start_replay none frame_count speed w = stop_replay w
  start_replay (some factory) frame_count speed w = record (stop_replay w) {
    factory = some factory;
    total_frames = frame_count;
    speed_factor = std_clamp F speed (strtod (codes "0.1")) (of_ℤ (pos 8));
    scheduled_count = 0;
    should_stop = false;
    is_paused = false;
    is_active = true;
  }

  unfoldable pub pause_replay : ReplayWorker F S → ReplayWorker F S
  pause_replay w = if w.is_active then record w { is_paused = true } else w

  unfoldable pub resume_replay : ReplayWorker F S → ReplayWorker F S
  resume_replay w = if w.is_active then record w { is_paused = false } else w

unfoldable pub same_time : ℤ → ℤ → Bool
same_time a b = pos_part a == pos_part b && neg_part a == neg_part b

unfoldable pub sum : List ℤ → ℤ
sum [] = pos 0
sum (d ∷ ds) = d +ℤ sum ds

-- A frame with the time of the frame before it is moved by a nanosecond.
unfoldable pub moved : ℤ → RawCanMessage → RawCanMessage
unfolding same_time
moved prev m =
    if same_time m.receive_time prev then record m { receive_time = m.receive_time +ℤ pos 1 } else m

abbrev pub blank : ℤ → RawCanMessage
blank time = record { receive_time = time; payload = replicate 8 0; message_id = 0; dlc = 8 }

module _ (F : Float) (R : Random F)
    (encode : DbcCanMessage (Float.Real F) → RawCanMessage → RawCanMessage) where
  open F use {Real, of_ℤ, to_ℤ, div}

  abbrev pub Handler : Type 0
  Handler = Option (ManipulationHandler F R)

  -- A DBC record is manipulated and encoded as it is read.
  unfoldable pub read_next : Entry Real → Handler → RawCanMessage × Handler
  unfolding inject_dbc
  read_next (raw m) h = (m, h)
  read_next (dbc m) none = (encode m (blank m.receive_time), none)
  read_next (dbc m) (some h) =
      let (h', m') = inject_dbc F R h m in (encode m' (blank m'.receive_time), some h')

  unfoldable pub scaled : Real → ℤ → ℤ
  scaled speed relative =
      let ns = to_ℤ (div (of_ℤ relative) speed) in if ltb_ℤ (pos 0) ns then ns else pos 0

  unfoldable pub build_insertion_items :
      List (PendingInsertion Real) → ℤ → List (ScheduledItem RawCanMessage)
  build_insertion_items [] base = []
  build_insertion_items (i ∷ is) base =
      record {
        scheduled_at = base +ℤ pos (i.delay_offset * 1000);
        job = encode i.message (blank (pos 0));
      }
      ∷ build_insertion_items is base

  -- The manipulation of a frame that is to be sent, with what becomes of it.
  unfoldable pub judge : RawCanMessage → Handler → RawCanMessage × FrameResult Real × Handler
  unfolding inject_raw evaluate
  judge m none = (m, record { drop = false; delay_offset = 0; insertions = [] }, none)
  judge m (some h) =
      let (h', f) =
        inject_raw F R h (record { id = m.message_id; dlc = m.dlc; payload = m.payload }) in
      let (result, h'') = evaluate F R h' in
      (record m { message_id = f.id; dlc = f.dlc; payload = f.payload }, result, some h'')

  -- The items that a frame with a time leads to.
  unfoldable pub items_at :
      ℤ → RawCanMessage → FrameResult Real → List (ScheduledItem RawCanMessage)
  unfolding build_insertion_items
  items_at at m result =
      let final = at +ℤ pos (result.delay_offset * 1000) in
      build_insertion_items result.insertions final
      ++ (if result.drop then [] else record { scheduled_at = final; job = m } ∷ [])

  -- The variables of `run`: the start of the replay, which pauses move, and whether it has stopped.
  pub record Playing : Type 0 where
    pub replay_start : ℤ
    pub handler : Handler
    pub has_stopped : Bool
    pub count : ℕ

  unfoldable pub schedule_and_push :
      Real → ℤ → RawCanMessage → Wait → Playing → List (ScheduledItem RawCanMessage) × Playing
  unfolding scaled judge items_at sum
  schedule_and_push speed first m (goes_on pauses) p =
      let start = p.replay_start +ℤ sum pauses in
      let (m', result, h) = judge m p.handler in
      (
        items_at (start +ℤ scaled speed (m.receive_time -ℤ first)) m' result,
        record p { replay_start = start; handler = h },
      )
  schedule_and_push speed first m stops_waiting p = ([], record p { has_stopped = true })
  schedule_and_push speed first m (stops_pushing pauses k) p =
      let start = p.replay_start +ℤ sum pauses in
      let (m', result, h) = judge m p.handler in
      (
        take k (items_at (start +ℤ scaled speed (m.receive_time -ℤ first)) m' result),
        record p { replay_start = start; handler = h; has_stopped = true },
      )

  unfoldable pub counted : Playing → Playing
  counted p = record p { count = suc p.count }

  -- The loop of `run`, over what is left of the recording: a record, or a read that fails.
  unfoldable pub replay_from :
      Real
      → ℤ
      → (ℕ → Wait)
      → ℤ
      → List (Option (Entry Real))
      → Playing
      → List (ScheduledItem RawCanMessage) × Playing
  unfolding read_next moved schedule_and_push counted
  replay_from speed first waits prev [] p = ([], p)
  replay_from speed first waits prev (none ∷ es) p = ([], p)
  replay_from speed first waits prev (some e ∷ es) p =
      let (read, h) = read_next e p.handler in
      let m = moved prev read in
      let (items, q) = schedule_and_push speed first m (waits p.count) (record p { handler = h }) in
      let (rest, r) = replay_from speed first waits m.receive_time es (counted q) in
      elim (p.has_stopped) [ true ↦ ([], p) | false ↦ (items ++ rest, r) ]

  -- From the first frame on, at a time.
  unfoldable pub replay :
      Real
      → (ℕ → Wait)
      → ℤ
      → Entry Real
      → List (Option (Entry Real))
      → Handler
      → List (ScheduledItem RawCanMessage) × Playing
  unfolding read_next schedule_and_push counted replay_from
  replay speed waits now e es handler =
      let (m, h) = read_next e handler in
      let (items, q) =
        schedule_and_push speed m.receive_time m (waits 0)
          (record { replay_start = now; handler = h; has_stopped = false; count = 0 }) in
      let (rest, r) = replay_from speed m.receive_time waits m.receive_time es (counted q) in
      (items ++ rest, r)

  -- `run`, with the signals; the reader is none if it cannot be opened.
  unfoldable pub run :
      Real
      → (ℕ → Wait)
      → ℤ
      → Option (List (Option (Entry Real)))
      → Handler
      → List (ScheduledItem RawCanMessage) × List Signal × ℕ
  unfolding replay
  run speed waits now none handler = ([], error_occurred ∷ replay_stopped ∷ [], 0)
  run speed waits now (some []) handler = ([], replay_started ∷ replay_stopped ∷ [], 0)
  run speed waits now (some (none ∷ es)) handler = ([], replay_started ∷ replay_stopped ∷ [], 0)
  run speed waits now (some (some e ∷ es)) handler =
      let (items, p) = replay speed waits now e es handler in
      (
        items,
        replay_started
            ∷ (if p.has_stopped
                then replay_stopped ∷ []
                else replay_finished ∷ replay_stopped ∷ []),
        p.count,
      )
