-- ===== src/Consumer.antt =====
-- `sending/worker/sending_consumer_worker.cpp`: the thread that takes items out of the queue and
-- sends each at its time. The steps of the thread are cut where another thread can run; the others
-- push items, ask it to stop, and let time pass. How long it sleeps has no part in what it does, so
-- that the estimate of the sleep is left out; sleeping and yielding are time that passes.
use cancept.Prelude.{ℕ, suc, ◌+◌, ◌≡◌, Bool, true, false, List, [], ◌∷◌, Option, none, some}
use cancept.Prelude.Int.{ℤ, pos, ◌+ℤ◌, ◌≤ℤ◌, ltb_ℤ}
use cancept.Queue.{
  ScheduledItem, ScheduledItemQueue, push, try_push, pop, peek_front, interrupt, new_queue,
}
pub mod Timely
pub mod Counted
pub mod Progress
pub mod Conserved
mod Tests

-- Where the thread stands in `run`.
pub data Phase (J : Type 0) : Type 0 where
  -- at the head of the outer loop
  idle : Phase J
  -- between the test of the outer loop and `pop`
  looking : Phase J
  -- at the head of the inner loop, with the item
  holding : ScheduledItem J → Phase J
  -- between `tryPush` and `pop` in the inner loop
  reclaiming : ScheduledItem J → Phase J
  -- behind the inner loop
  due : ScheduledItem J → Phase J
  ended : Phase J

-- `sent` has the items whose callback was called, the last one first, with the time of the call.
pub record Worker (J : Type 0) : Type 0 where
  pub queue : ScheduledItemQueue J
  pub phase : Phase J
  pub should_stop : Bool
  pub clock : ℤ
  pub sent : List (ScheduledItem J × ℤ)

module _ {J : Type 0} where
  -- `stopConsuming`, up to where it waits for the thread.
  unfoldable pub request_stop : Worker J → Worker J
  unfolding interrupt
  request_stop w = record w { should_stop = true; queue = interrupt w.queue }

  -- The thread gets an item or, from an empty queue, none.
  unfoldable pub taken : Option (ScheduledItem J) → ScheduledItemQueue J → Worker J → Worker J
  taken none q w = record w { queue = q; phase = idle }
  taken (some item) q w = record w { queue = q; phase = holding item }

  -- After it has given its item back: none ends the inner loop with the item that it had.
  unfoldable pub reclaimed :
      ScheduledItem J → Option (ScheduledItem J) → ScheduledItemQueue J → Worker J → Worker J
  reclaimed item none q w = record w { queue = q; phase = due item }
  reclaimed item (some other) q w = record w { queue = q; phase = holding other }

  -- Behind the inner loop. An item without a callback is passed over.
  unfoldable pub conclude : (J → Bool) → ScheduledItem J → Worker J → Worker J
  conclude callable item w = elim (w.should_stop) [
    | true ↦ record w { phase = ended }
    | false ↦ elim (callable item.job) [
      | true ↦ record w { phase = idle; sent = (item, w.clock) ∷ w.sent }
      | false ↦ record w { phase = idle }
    ]
  ]

  module _ (callable : J → Bool) where
    -- A step of the thread or of another one.
    pub data Step : Worker J → Worker J → Type 0 where
      other_push :
          (item : ScheduledItem J) (w : Worker J) → Step w (record w { queue = push item w.queue })
      other_try_push :
          (item : ScheduledItem J) (w : Worker J)
          → Step w (record w { queue = (try_push item w.queue).1 })
      other_stop : (w : Worker J) → Step w (request_stop w)
      time_passes : (n : ℕ) (w : Worker J) → Step w (record w { clock = w.clock +ℤ pos n })
      leave :
          (w : Worker J)
          → w.phase ≡ idle
          → w.should_stop ≡ true
          → Step w (record w { phase = ended })
      look :
          (w : Worker J)
          → w.phase ≡ idle
          → w.should_stop ≡ false
          → Step w (record w { phase = looking })
      take :
          (w : Worker J) (o : Option (ScheduledItem J)) (q : ScheduledItemQueue J)
          → w.phase ≡ looking
          → pop w.queue ≡ some (o, q)
          → Step w (taken o q w)
      -- the test of the inner loop
      arrive :
          (w : Worker J) (item : ScheduledItem J)
          → w.phase ≡ holding item
          → ltb_ℤ w.clock item.scheduled_at ≡ false
          → Step w (record w { phase = due item })
      break_off :
          (w : Worker J) (item : ScheduledItem J)
          → w.phase ≡ holding item
          → ltb_ℤ w.clock item.scheduled_at ≡ true
          → w.should_stop ≡ true
          → Step w (record w { phase = due item })
      give_back :
          (w : Worker J) (item : ScheduledItem J) (earliest : ℤ) (q : ScheduledItemQueue J)
          → w.phase ≡ holding item
          → ltb_ℤ w.clock item.scheduled_at ≡ true
          → w.should_stop ≡ false
          → peek_front w.queue ≡ some earliest
          → ltb_ℤ earliest item.scheduled_at ≡ true
          → try_push item w.queue ≡ (true, q)
          → Step w (record w { queue = q; phase = reclaiming item })
      take_back :
          (w : Worker J) (item : ScheduledItem J) (o : Option (ScheduledItem J))
          (q : ScheduledItemQueue J)
          → w.phase ≡ reclaiming item
          → pop w.queue ≡ some (o, q)
          → Step w (reclaimed item o q w)
      call_back :
          (w : Worker J) (item : ScheduledItem J)
          → w.phase ≡ due item
          → Step w (conclude callable item w)

    pub data Run : Worker J → Worker J → Type 0 where
      stop : (w : Worker J) → Run w w
      next : (u v w : Worker J) → Run u v → Step v w → Run u w

  -- `startConsuming` on a queue, at a time.
  unfoldable pub start_consuming : ScheduledItemQueue J → ℤ → Worker J
  start_consuming q now = record {
    queue = q;
    phase = idle;
    should_stop = false;
    clock = now;
    sent = [];
  }
