-- ===== src/Manipulation/Handler/Selection.antt =====
-- Which strategies `inject` applies, and the verdict on a whole frame: the signals are
-- manipulated first, then the encoded bytes, then `evaluate` is asked.
use cancept.Prelude.{◌≡◌}
use cancept.Core.Float.{Float}
use cancept.Core.Dto.{DbcCanMessage}
use cancept.Manipulation.Random.{Random}
use cancept.Manipulation.Handler.{
  FrameResult, RawFrame, ManipulationHandler, inject_raw, inject_dbc, evaluate,
}

module _ (F : Float) (R : Random F) where
  open F use {Real}
  open R use {Engine, Chance}

  -- The raw entries and their flags are as they were after the loop over the signals.
  RawAs : (h h' : ManipulationHandler F R) → Type 0
  RawAs h h' = (h'.raw_manipulations ≡ h.raw_manipulations) × (h'.raw_latched ≡ h.raw_latched)

  -- A frame that is replayed: its signals are manipulated, what is encoded of it is manipulated, and
  -- the handler is asked for the verdict.
  unfoldable pub judge_frame :
      ManipulationHandler F R
      → DbcCanMessage Real
      → RawFrame
      → FrameResult Real × ManipulationHandler F R
  judge_frame h x f = evaluate F R (inject_raw F R (inject_dbc F R h x).0 f).0
