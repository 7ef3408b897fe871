-- ===== src/Queue/Tests.antt =====
-- Runs of the `MessageQueue` of src/bbl.cpp.
use bbl.Prelude.{ℕ, ◌≡◌, ◌≢◌, refl, false, inl, List, [], ◌∷◌}
use bbl.Queue.{RecvPc, System, new_queue, RecvStep, SendStep, Reach, receive, push, start, later}
use bbl.Queue.Invariant.{received_in_order, no_lost_wakeup}
use bbl.Queue.Progress.{RecvSteps, Returned, pop_returns}

-- a message is pushed and popped, and the receiver sleeps
abbrev sleeping : System
sleeping = record new_queue { recv = RecvPc.asleep; sent = 5 ∷ []; received = 5 ∷ [] }

sleeping-Reach : Reach sleeping
sleeping-Reach =
    later
      (later
        (later
          (later
            (later
              (later
                (later (later start (push (SendStep.lock 5 refl refl)))
                  (push (SendStep.push_back 5 refl)))
                (push (SendStep.notify refl)))
              (receive (RecvStep.lock refl refl)))
            (receive (RecvStep.take_front 5 [] refl refl refl)))
          (receive (RecvStep.lock refl refl)))
        (receive (RecvStep.decide refl refl refl)))
      (receive (RecvStep.sleep refl))

-- one more message is pushed
abbrev sent_two : System
sent_two = record new_queue {
  recv = RecvPc.woken;
  messages = 6 ∷ [];
  sent = 5 ∷ 6 ∷ [];
  received = 5 ∷ [];
}

sent_two-Reach : Reach sent_two
sent_two-Reach =
    later
      (later (later sleeping-Reach (push (SendStep.lock 6 refl refl)))
        (push (SendStep.push_back 6 refl)))
      (push (SendStep.notify refl))

received_in_order_example : ◌≡◌ {A = List ℕ} (5 ∷ 6 ∷ []) (5 ∷ 6 ∷ [])
received_in_order_example = received_in_order sent_two sent_two-Reach

no_lost_wakeup_example : (sleeping.messages ≡ []) × (sleeping.terminated ≡ false)
no_lost_wakeup_example = no_lost_wakeup sleeping sleeping-Reach refl refl (inl refl)

inside : RecvPc.woken ≢ RecvPc.thrown
inside e = cc e

message_there : ◌≢◌ {A = List ℕ} (6 ∷ []) []
message_there e = cc e

pop_returns_example : (t : System) × RecvSteps sent_two t × Returned sent_two t
pop_returns_example = pop_returns sent_two sent_two-Reach inside refl (inl refl) (inl message_there)
