-- ===== src/Repeated/Tests.antt =====
-- Runs of a few rounds.
use cancept.Prelude.{ℕ, ◌≡◌, refl, false, List, [], ◌∷◌, none, some, inl, inr, arith, All}
use cancept.Prelude.Int.{ℤ, pos, negsuc, ◌+ℤ◌, ◌*ℤ◌}
use cancept.Repeated.{
  CreateCallback, RepeatedWorker, Round, start_creating, produce, update_all, after_round, reset,
  interval_ns, update_interval,
}
use cancept.Repeated.Ticks.{
  calls, ticks, IsQuiet, IsLong, SetsLong, IsPunctual, Climbs, calls-produce, produce-Climbs,
}

abbrev idle : RepeatedWorker ℕ ℕ
idle = record {
  callback = none;
  interval_us = pos 1000;
  is_active = false;
  should_stop = false;
  reset_guard = false;
}

-- An item for each call.
one_item : CreateCallback ℕ ℕ
one_item found time = some (record { scheduled_at = time; job = found } ∷ [])

abbrev quiet : ℕ → ℤ → Round ℕ
quiet found now = record { before = []; found = found; during = []; now = now }

abbrev rounds : List (Round ℕ)
rounds = quiet 1 (pos 10) ∷ quiet 2 (pos 9000000) ∷ quiet 3 (pos 9000001) ∷ []

rounds-All : All IsQuiet rounds
unfolding All IsQuiet
rounds-All = ((refl, refl), ((refl, refl), ((refl, refl), tt)))

calls-produce_example :
    calls (produce (pos 5) rounds (start_creating (some one_item) (pos 2) idle))
    ≡ ticks (pos 2 *ℤ pos 1000) (pos 5) 3
calls-produce_example =
    calls-produce one_item (pos 2) (pos 5) rounds idle refl refl (omega arith) rounds-All

-- The interval becomes 3 in the first round; an interval of -1 is refused.
abbrev changed : List (Round ℕ)
changed =
    record { before = []; found = 1; during = pos 3 ∷ negsuc 0 ∷ []; now = pos 10 }
    ∷ quiet 2 (pos 2010)
    ∷ []

changed-All : All (SetsLong (pos 2)) changed
unfolding All SetsLong IsLong
changed-All = ((tt, (inr (omega arith), (inl (omega arith), tt))), ((tt, tt), tt))

changed-IsPunctual : IsPunctual (pos 5) changed (start_creating (some one_item) (pos 2) idle)
unfolding IsPunctual start_creating after_round update_all update_interval reset interval_ns ◌+ℤ◌
    ◌*ℤ◌
changed-IsPunctual = (omega arith, (omega arith, tt))

produce-Climbs_example :
    Climbs
      (pos 2 *ℤ pos 1000)
      (pos 5)
      (calls (produce (pos 5) changed (start_creating (some one_item) (pos 2) idle)))
produce-Climbs_example =
    produce-Climbs (pos 2) one_item (pos 2) (pos 5) changed idle refl (omega arith) (omega arith)
      changed-All changed-IsPunctual
