-- ===== src/Queue/Invariant.antt =====
-- What holds of a `MessageQueue` of src/bbl.cpp whatever the order of its threads.
use mathlib.Core.List
use bbl.Prelude.{◌≡◌, refl, sym, ap, ◌∙◌, Bool, true, false, ◌⊎◌, [], ◌∷◌, ◌++◌, arith}
use bbl.Queue.{
  RecvPc, SendPc, EndPc, Owner, System, new_queue, RecvStep, SendStep, EndStep, Spurious, Step,
  Reach, receive, push, terminate, wake_up, start, later,
}

abbrev pub recv_owns : RecvPc → Bool
recv_owns RecvPc.locked = true
recv_owns RecvPc.deciding = true
recv_owns RecvPc.outside = false
recv_owns RecvPc.asleep = false
recv_owns RecvPc.woken = false
recv_owns RecvPc.thrown = false

abbrev pub send_owns : SendPc → Bool
send_owns (SendPc.holding m) = true
send_owns SendPc.idle = false
send_owns SendPc.notifying = false

abbrev pub end_owns : EndPc → Bool
end_owns EndPc.guarding = true
end_owns EndPc.running = false
end_owns EndPc.stored = false
end_owns EndPc.released = false
end_owns EndPc.ended = false

abbrev is_owner : Owner → Owner → Bool
is_owner Owner.receiver Owner.receiver = true
is_owner Owner.sender Owner.sender = true
is_owner Owner.destructor Owner.destructor = true
is_owner _ _ = false

abbrev pub stopped : EndPc → Bool
stopped EndPc.running = false
stopped EndPc.stored = true
stopped EndPc.guarding = true
stopped EndPc.released = true
stopped EndPc.ended = true

pub record Inv (s : System) : Type 0 where
  pub fifo : s.sent ≡ s.received ++ s.messages
  pub recv_owner : recv_owns s.recv ≡ is_owner Owner.receiver s.owner
  pub send_owner : send_owns s.send ≡ is_owner Owner.sender s.owner
  pub end_owner : end_owns s.ending ≡ is_owner Owner.destructor s.owner
  pub flag : s.terminated ≡ stopped s.ending
  pub deciding_empty :
      s.recv ≡ RecvPc.deciding
      → (s.messages ≡ []) × ((s.ending ≡ EndPc.running) ⊎ (s.ending ≡ EndPc.stored))
  pub asleep_noted : s.recv ≡ RecvPc.asleep → (s.messages ≡ []) ⊎ (s.send ≡ SendPc.notifying)
  pub asleep_before : s.recv ≡ RecvPc.asleep → s.ending ≡ EndPc.ended → ⊥

Inv-new_queue : Inv new_queue
Inv-new_queue = record {
  fifo = refl;
  recv_owner = refl;
  send_owner = refl;
  end_owner = refl;
  flag = refl;
  deciding_empty = λ h. cc h;
  asleep_noted = λ h. cc h;
  asleep_before = λ h e. cc h;
}

RecvStep-Inv : {s t : System} → RecvStep s t → Inv s → Inv t
RecvStep-Inv {s} (RecvStep.lock at free) inv = record {
  fifo = inv.fifo;
  recv_owner = ground arith;
  send_owner = ground arith;
  end_owner = ground arith;
  flag = inv.flag;
  deciding_empty = λ h. ground arith;
  asleep_noted = λ h. ground arith;
  asleep_before = λ h e. ground arith;
}
RecvStep-Inv {s} (RecvStep.decide at none_left live) inv = record {
  fifo = inv.fifo;
  recv_owner = ground arith;
  send_owner = ground arith;
  end_owner = ground arith;
  flag = inv.flag;
  deciding_empty = λ h. ground arith;
  asleep_noted = λ h. ground arith;
  asleep_before = λ h e. ground arith;
}
RecvStep-Inv {s} (RecvStep.sleep at) inv = record {
  fifo = inv.fifo;
  recv_owner = ground arith;
  send_owner = ground arith;
  end_owner = ground arith;
  flag = inv.flag;
  deciding_empty = λ h. ground arith;
  asleep_noted = λ h. ground arith;
  asleep_before = λ h e. ground arith;
}
RecvStep-Inv {s} (RecvStep.relock at free) inv = record {
  fifo = inv.fifo;
  recv_owner = ground arith;
  send_owner = ground arith;
  end_owner = ground arith;
  flag = inv.flag;
  deciding_empty = λ h. ground arith;
  asleep_noted = λ h. ground arith;
  asleep_before = λ h e. ground arith;
}
RecvStep-Inv {s} (RecvStep.throw_terminated at over) inv = record {
  fifo = inv.fifo;
  recv_owner = ground arith;
  send_owner = ground arith;
  end_owner = ground arith;
  flag = inv.flag;
  deciding_empty = λ h. ground arith;
  asleep_noted = λ h. ground arith;
  asleep_before = λ h e. ground arith;
}
RecvStep-Inv {s} (RecvStep.take_front m ms at live e) inv = record {
  fifo = inv.fifo ∙ ap (λ l. s.received ++ l) e ∙ sym (List.append_assoc s.received (m ∷ []) ms);
  recv_owner = ground arith;
  send_owner = ground arith;
  end_owner = ground arith;
  flag = inv.flag;
  deciding_empty = λ h. ground arith;
  asleep_noted = λ h. ground arith;
  asleep_before = λ h e. ground arith;
}

Spurious-Inv : {s t : System} → Spurious s t → Inv s → Inv t
Spurious-Inv {s} (Spurious.wake at) inv = record {
  fifo = inv.fifo;
  recv_owner = ground arith;
  send_owner = ground arith;
  end_owner = ground arith;
  flag = inv.flag;
  deciding_empty = λ h. ground arith;
  asleep_noted = λ h. ground arith;
  asleep_before = λ h e. ground arith;
}

SendStep-Inv : {s t : System} → SendStep s t → Inv s → Inv t
SendStep-Inv {s} (SendStep.lock m at free) inv = record {
  fifo = inv.fifo;
  recv_owner = ground arith;
  send_owner = ground arith;
  end_owner = ground arith;
  flag = inv.flag;
  deciding_empty = λ h. ground arith;
  asleep_noted = λ h. ground arith;
  asleep_before = λ h e. ground arith;
}
SendStep-Inv {s} (SendStep.push_back m at) inv = record {
  fifo = ap (λ l. l ++ m ∷ []) inv.fifo ∙ List.append_assoc s.received s.messages (m ∷ []);
  recv_owner = ground arith;
  send_owner = ground arith;
  end_owner = ground arith;
  flag = inv.flag;
  deciding_empty = λ h. ground arith;
  asleep_noted = λ h. ground arith;
  asleep_before = λ h e. ground arith;
}
SendStep-Inv {s} (SendStep.notify at) inv = record {
  fifo = inv.fifo;
  recv_owner = ground arith;
  send_owner = ground arith;
  end_owner = ground arith;
  flag = inv.flag;
  deciding_empty = λ h. ground arith;
  asleep_noted = λ h. ground arith;
  asleep_before = λ h e. ground arith;
}

EndStep-Inv : {s t : System} → EndStep s t → Inv s → Inv t
EndStep-Inv {s} (EndStep.store at) inv = record {
  fifo = inv.fifo;
  recv_owner = ground arith;
  send_owner = ground arith;
  end_owner = ground arith;
  flag = refl;
  deciding_empty = λ h. ground arith;
  asleep_noted = λ h. ground arith;
  asleep_before = λ h e. ground arith;
}
EndStep-Inv {s} (EndStep.lock at free) inv = record {
  fifo = inv.fifo;
  recv_owner = ground arith;
  send_owner = ground arith;
  end_owner = ground arith;
  flag = ground arith;
  deciding_empty = λ h. ground arith;
  asleep_noted = λ h. ground arith;
  asleep_before = λ h e. ground arith;
}
EndStep-Inv {s} (EndStep.unlock at) inv = record {
  fifo = inv.fifo;
  recv_owner = ground arith;
  send_owner = ground arith;
  end_owner = ground arith;
  flag = ground arith;
  deciding_empty = λ h. ground arith;
  asleep_noted = λ h. ground arith;
  asleep_before = λ h e. ground arith;
}
EndStep-Inv {s} (EndStep.notify at) inv = record {
  fifo = inv.fifo;
  recv_owner = ground arith;
  send_owner = ground arith;
  end_owner = ground arith;
  flag = ground arith;
  deciding_empty = λ h. ground arith;
  asleep_noted = λ h. ground arith;
  asleep_before = λ h e. ground arith;
}

Step-Inv : {s t : System} → Step s t → Inv s → Inv t
Step-Inv (receive st) inv = RecvStep-Inv st inv
Step-Inv (push st) inv = SendStep-Inv st inv
Step-Inv (terminate st) inv = EndStep-Inv st inv
Step-Inv (wake_up st) inv = Spurious-Inv st inv

pub Reach-Inv : {s : System} → Reach s → Inv s
Reach-Inv start = Inv-new_queue
Reach-Inv (later r st) = Step-Inv st (Reach-Inv r)

-- Whatever the order of the threads' steps, what was pushed so far is what was popped, in this order,
-- followed by what the queue holds: no message is lost, doubled or overtaken.
pub received_in_order : (s : System) → Reach s → s.sent ≡ s.received ++ s.messages
received_in_order s r = (Reach-Inv r).fifo

-- No wakeup is lost: where the receiver sleeps, no push is about to notify, and the destructor has not begun
-- or is through, the queue is empty and the child is not terminated.
pub no_lost_wakeup :
    (s : System)
    → Reach s
    → s.recv ≡ RecvPc.asleep
    → s.send ≡ SendPc.idle
    → (s.ending ≡ EndPc.running) ⊎ (s.ending ≡ EndPc.ended)
    → (s.messages ≡ []) × (s.terminated ≡ false)
no_lost_wakeup s r asleep idle ends =
    let inv = Reach-Inv r in
    (ground (arith, inv.asleep_noted asleep), ground (arith, inv.flag, inv.asleep_before asleep))
