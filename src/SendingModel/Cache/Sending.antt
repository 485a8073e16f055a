-- ===== src/SendingModel/Cache/Sending.antt =====
-- A repeated transmission sends what a single one would.
use cancept.Prelude.{All}
use cancept.Prelude.Dict.{Dict}
use cancept.Core.Float.{Float}
use cancept.SendingModel.State.{SendingModel, definitions}
use cancept.SendingModel.Send.{current_value}
use cancept.SendingModel.Cache.Coherent.{Coherent}
use cancept.SendingModel.Range.{IsWithin}

module _ {F : Float} {E : Type 0} where
  open F use {Real}

  -- Each value that would be sent is in the range of its signal before it is clamped.
  unfoldable pub AllWithin : (E → Real) → SendingModel F E → Type 0
  AllWithin eval s =
      All
        (λ msg.
          All (λ sig. IsWithin F sig (current_value eval s msg.message_id sig))
            msg.signal_descriptions)
        (definitions s)
