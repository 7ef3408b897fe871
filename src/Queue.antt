-- ===== src/Queue.antt =====
-- `MessageQueue` of src/bbl.h and src/bbl.cpp under its mutex and condition variable, with the end of a
-- child state in `stateDestructor`. One thread pops, one pushes, one destroys; each step of `Step` is what
-- a thread does between two points where another may run. Waiting on the condition variable gives
-- the mutex up and sleeps in one step, as the standard library does, and may end for no reason.
-- `selectCv`, which a queue of a single receiver does not set, is left out.
pub mod Invariant
pub mod Progress
pub mod Tests
use bbl.Prelude.{ℕ, ◌≡◌, Bool, true, false, Option, none, some, List, [], ◌∷◌, ◌++◌}

-- where `pop` is: outside of it, at the test of the predicate, about to sleep, asleep, woken, thrown out
pub data RecvPc : Type 0 where
  outside locked deciding asleep woken thrown : RecvPc

-- where `push` is: outside of it, holding the mutex with a message, about to notify
pub data SendPc : Type 0 where
  idle : SendPc
  holding : ℕ → SendPc
  notifying : SendPc

-- where `stateDestructor` is: not begun, behind the store, in the block with the mutex, behind it,
-- behind the notification
pub data EndPc : Type 0 where
  running stored guarding released ended : EndPc

pub data Owner : Type 0 where
  nobody receiver sender destructor : Owner

-- Messages are numbers; `sent` and `received` are what was pushed and popped so far.
pub record System : Type 0 where
  pub messages : List ℕ
  pub terminated : Bool
  pub owner : Owner
  pub recv : RecvPc
  pub send : SendPc
  pub ending : EndPc
  pub sent : List ℕ
  pub received : List ℕ

abbrev pub new_queue : System
new_queue = record {
  messages = [];
  terminated = false;
  owner = nobody;
  recv = outside;
  send = idle;
  ending = running;
  sent = [];
  received = [];
}

-- `cv.notify_one()`
abbrev pub notify_one : RecvPc → RecvPc
notify_one asleep = woken
notify_one outside = outside
notify_one locked = locked
notify_one deciding = deciding
notify_one woken = woken
notify_one thrown = thrown

-- `empty` and `tryPop`, which hold the mutex from begin to end
abbrev pub empty : List ℕ → Bool
empty [] = true
empty (m ∷ ms) = false

abbrev pub try_pop : List ℕ → Option (ℕ × List ℕ)
try_pop [] = none
try_pop (m ∷ ms) = some (m, ms)

pub data RecvStep (s : System) : System → Type 0 where
  lock :
      s.recv ≡ outside
      → s.owner ≡ nobody
      → RecvStep s (record s { recv = locked; owner = receiver })
  decide :
      s.recv ≡ locked
      → s.messages ≡ []
      → s.terminated ≡ false
      → RecvStep s (record s { recv = deciding })
  sleep : s.recv ≡ deciding → RecvStep s (record s { recv = asleep; owner = nobody })
  relock :
      s.recv ≡ woken → s.owner ≡ nobody → RecvStep s (record s { recv = locked; owner = receiver })
  throw_terminated :
      s.recv ≡ locked
      → s.terminated ≡ true
      → RecvStep s (record s { recv = thrown; owner = nobody })
  take_front :
      (m : ℕ) (ms : List ℕ)
      → s.recv ≡ locked
      → s.terminated ≡ false
      → s.messages ≡ m ∷ ms
      → RecvStep s (record s {
        recv = outside;
        owner = nobody;
        messages = ms;
        received = s.received ++ m ∷ [];
      })

pub data SendStep (s : System) : System → Type 0 where
  lock :
      (m : ℕ)
      → s.send ≡ idle
      → s.owner ≡ nobody
      → SendStep s (record s { send = holding m; owner = sender })
  push_back :
      (m : ℕ)
      → s.send ≡ holding m
      → SendStep s (record s {
        send = notifying;
        owner = nobody;
        messages = s.messages ++ m ∷ [];
        sent = s.sent ++ m ∷ [];
      })
  notify : s.send ≡ notifying → SendStep s (record s { send = idle; recv = notify_one s.recv })

pub data EndStep (s : System) : System → Type 0 where
  store : s.ending ≡ running → EndStep s (record s { ending = stored; terminated = true })
  lock :
      s.ending ≡ stored
      → s.owner ≡ nobody
      → EndStep s (record s { ending = guarding; owner = destructor })
  unlock : s.ending ≡ guarding → EndStep s (record s { ending = released; owner = nobody })
  notify : s.ending ≡ released → EndStep s (record s { ending = ended; recv = notify_one s.recv })

-- a wait that ends for no reason
pub data Spurious (s : System) : System → Type 0 where
  wake : s.recv ≡ asleep → Spurious s (record s { recv = woken })

pub data Step (s t : System) : Type 0 where
  receive : RecvStep s t → Step s t
  push : SendStep s t → Step s t
  terminate : EndStep s t → Step s t
  wake_up : Spurious s t → Step s t

pub data Reach : System → Type 0 where
  start : Reach new_queue
  later : {s t : System} → Reach s → Step s t → Reach t
