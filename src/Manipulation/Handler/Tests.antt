-- ===== src/Manipulation/Handler/Tests.antt =====
-- Runs of `manipulation/service/manipulation_handler.cpp`, and the theorems at concrete inputs.
use cancept.Prelude.{
  ℕ, ◌+◌, ◌%◌, ◌<◌, ◌≡◌, refl, true, false, List, [], ◌∷◌, none, codes, arith, leb, length,
}
use cancept.Prelude.Int.{ℤ, pos}
use cancept.Core.Dto.{DbcCanMessage, DbcCanSignal}
use cancept.Core.Sample.{whole}
use cancept.Manipulation.Random.{Random}
use cancept.Manipulation.Triggers.{signal_map, fires_raw_trigger, all_of}
use cancept.Manipulation.Effects.{flip, apply_raw_effect, apply_dbc_effect}
use cancept.Manipulation.Effects.RawLaws.{bit_at, flip_exactly}
use cancept.Manipulation.Effects.DbcLaws.{names, update_first, effect_value, apply_dbc_effect_first}
use cancept.Manipulation.Types.{
  id_trigger, signal_name_trigger, DbcEffect, clamp_effect, bit_flip_effect, RawStrategy,
  DbcStrategy, insert_strategy, RawManipulation, DbcManipulation, latch_mutation, no_mutation,
}
use cancept.Manipulation.Handler.Verdict.{Applied, to_raw, to_dbc, apply_all, evaluate-apply_all}
use cancept.Manipulation.Handler.Valid.{
  IsValid, inject_raw_use, inject_dbc_use, evaluate_use, use_handler, new_handler-IsValid,
}
use cancept.Manipulation.Handler.{
  RawFrame, ManipulationHandler, new_handler, inject_raw, inject_raw_from, inject_raw_at,
  raw_triggered, latch_raw, apply_raw_strategy, apply_raw_effects, evaluate,
}

seven_lt : (e : ℕ) → e % 8 < 8
seven_lt e = omega arith

-- The generator counts.
abbrev counting : Random whole
counting = record {
  Engine = ℕ;
  Chance = ℕ;
  le = leb;
  canonical = λ e. (e, e + 1);
  upto_seven = λ e. (e % 8, e + 1);
  between = λ a b e. (b, e + 1);
  upto_seven_lt = seven_lt;
}

abbrev D : Type 0
D = ℤ

abbrev speed : ℤ → DbcCanSignal D
speed v = record { name = codes "Speed"; value = v }

abbrev rpm : DbcCanSignal D
rpm = record { name = codes "Rpm"; value = pos 900 }

abbrev message : DbcCanMessage D
message = record {
  receive_time = pos 0;
  signal_values = speed (pos 70) ∷ rpm ∷ speed (pos 3) ∷ [];
  message_id = 0x123;
}

abbrev frame : RawFrame
frame = record { id = 0x123; dlc = 8; payload = 0x46 ∷ 0 ∷ 0 ∷ 0 ∷ 0 ∷ 0 ∷ 0 ∷ 0 ∷ [] }

-- Flip the lowest bit of byte 1 from the first frame 0x123 on.
abbrev flipping : RawManipulation ℕ
flipping = record {
  trigger = id_trigger 0x123 ∷ [];
  strategy = RawStrategy.effect_strategy (bit_flip_effect 1 0 ∷ []);
  mutation = latch_mutation;
}

abbrev delaying : ℕ → DbcManipulation D ℕ
delaying us = record {
  trigger = signal_name_trigger (codes "Rpm") ∷ [];
  strategy = DbcStrategy.delayed_strategy us;
  mutation = no_mutation;
}

abbrev handler : ManipulationHandler whole counting
handler = new_handler whole counting (flipping ∷ []) (delaying 500 ∷ delaying 200 ∷ []) 0

latched_after :
    let (h, f) = inject_raw whole counting handler frame in
    let (h', f') = inject_raw whole counting h (record frame { id = 7 }) in
    (h.raw_latched ≡ true ∷ [])
    × (f.payload ≡ 0x46 ∷ 1 ∷ 0 ∷ 0 ∷ 0 ∷ 0 ∷ 0 ∷ 0 ∷ [])
    × (f'.payload ≡ 0x46 ∷ 1 ∷ 0 ∷ 0 ∷ 0 ∷ 0 ∷ 0 ∷ 0 ∷ [])
unfolding inject_raw inject_raw_from inject_raw_at raw_triggered latch_raw apply_raw_strategy
    apply_raw_effects apply_raw_effect new_handler all_of fires_raw_trigger
latched_after = (refl, refl, refl)

flip_exactly_example :
    (length (flip 1 0 frame.payload) ≡ 8)
    × (bit_at (flip 1 0 frame.payload) 1 3 ≡ bit_at frame.payload 1 3)
flip_exactly_example =
    flip_exactly 1 0 1 3 frame.payload (omega arith) (omega arith) (omega arith) (omega arith)

abbrev clamped : DbcEffect D
clamped = clamp_effect (codes "Speed") (pos 0) (pos 50)

apply_dbc_effect_first_example :
    ((apply_dbc_effect whole counting clamped
        (signal_map message.signal_values)
        message.signal_values
        0).0
      ≡ update_first (codes "Speed") (effect_value whole counting clamped 0) message.signal_values)
    × (names
          (apply_dbc_effect whole counting clamped
            (signal_map message.signal_values)
            message.signal_values
            0).0
        ≡ names message.signal_values)
apply_dbc_effect_first_example =
    apply_dbc_effect_first whole counting clamped message.signal_values message.signal_values 0 refl

abbrev several : List (Applied whole counting)
several =
    to_raw (RawStrategy.delayed_strategy 300) frame
    ∷ to_dbc (insert_strategy 10 none) [] message
    ∷ to_raw RawStrategy.drop_strategy frame
    ∷ to_raw (RawStrategy.delayed_strategy 900) frame
    ∷ []

evaluate-apply_all_example :
    let (result, next) =
      evaluate whole counting
        (apply_all whole counting several (evaluate whole counting handler).1) in
    (result.drop ≡ true)
    × (result.delay_offset ≡ 0)
    × (result.insertions ≡ record { delay_offset = 10; message = message } ∷ [])
    × ((evaluate whole counting next).0
        ≡ record { drop = false; delay_offset = 0; insertions = [] })
evaluate-apply_all_example = evaluate-apply_all whole counting several handler

new_handler-IsValid_example : IsValid whole counting (
    use_handler whole counting
      (inject_dbc_use message ∷ inject_raw_use frame ∷ evaluate_use ∷ [])
      handler)
new_handler-IsValid_example =
    new_handler-IsValid whole counting (flipping ∷ []) (delaying 500 ∷ delaying 200 ∷ []) 0
      (inject_dbc_use message ∷ inject_raw_use frame ∷ evaluate_use ∷ [])
