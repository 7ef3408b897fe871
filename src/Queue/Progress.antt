-- ===== src/Queue/Progress.antt =====
-- `MessageQueue::pop` of src/bbl.cpp comes back.
use bbl.Prelude.{
  ℕ, ◌≡◌, ◌≢◌, refl, true, false, ◌⊎◌, inl, inr, List, [], ◌∷◌, ◌++◌, arith, Bool-cases,
}
use bbl.Queue.{RecvPc, SendPc, EndPc, Owner, System, RecvStep, Reach}
use bbl.Queue.Invariant.{Inv, Reach-Inv, no_lost_wakeup, recv_owns}

-- steps of the receiver alone; it does not wake up by itself
pub data RecvSteps (s : System) : System → Type 0 where
  done : RecvSteps s s
  more : {t u : System} → RecvSteps s t → RecvStep t u → RecvSteps s u

-- the end of a `pop`: the front message is received, or the call is left because the child is terminated
abbrev pub Returned : System → System → Type 0
Returned s t =
    ((t.recv ≡ RecvPc.thrown) × (s.terminated ≡ true))
    ⊎ ((m : ℕ) × (ms : List ℕ) × (s.messages ≡ m ∷ ms)
        × (t.messages ≡ ms)
        × (t.received ≡ s.received ++ m ∷ []))

front_cases : (l : List ℕ) → (l ≡ []) ⊎ ((m : ℕ) × (ms : List ℕ) × (l ≡ m ∷ ms))
front_cases [] = inl refl
front_cases (m ∷ ms) = inr (m, ms, refl)

recv_cases :
    (pc : RecvPc)
    → (pc ≡ RecvPc.outside)
      ⊎ (pc ≡ RecvPc.locked)
      ⊎ (pc ≡ RecvPc.deciding)
      ⊎ (pc ≡ RecvPc.asleep)
      ⊎ (pc ≡ RecvPc.woken)
      ⊎ (pc ≡ RecvPc.thrown)
recv_cases RecvPc.outside = inl refl
recv_cases RecvPc.locked = inr (inl refl)
recv_cases RecvPc.deciding = inr (inr (inl refl))
recv_cases RecvPc.asleep = inr (inr (inr (inl refl)))
recv_cases RecvPc.woken = inr (inr (inr (inr (inl refl))))
recv_cases RecvPc.thrown = inr (inr (inr (inr (inr refl))))

-- behind the lock
from_locked :
    (s : System)
    → s.recv ≡ RecvPc.locked
    → (s.messages ≢ []) ⊎ (s.terminated ≡ true)
    → (t : System) × RecvStep s t × Returned s t
from_locked s at ready = elim (Bool-cases s.terminated) [
  | inl over ↦ (
    record s { recv = RecvPc.thrown; owner = Owner.nobody },
    RecvStep.throw_terminated at over,
    inl (refl, over),
  )
  | inr live ↦ elim (front_cases s.messages) [
    | inl e ↦ absurd (elim ready [ inl some_left ↦ some_left e | inr over ↦ cc (live, over) ])
    | inr (m, ms, e) ↦ (
      record s {
        recv = RecvPc.outside;
        owner = Owner.nobody;
        messages = ms;
        received = s.received ++ m ∷ [];
      },
      RecvStep.take_front m ms at live e,
      inr (m, ms, e, refl, refl),
    )
  ]
]

-- the mutex is free where no thread is in a block that holds it
free_owner :
    (s : System)
    → Inv s
    → recv_owns s.recv ≡ false
    → s.send ≡ SendPc.idle
    → (s.ending ≡ EndPc.running) ⊎ (s.ending ≡ EndPc.ended)
    → s.owner ≡ Owner.nobody
free_owner s inv out idle ends = ground arith

-- In every state that the threads can be in, with the pusher and the destructor not in the middle of their
-- calls, where a message is there or the child is terminated, and the receiver was not thrown out, a
-- `pop` comes to its end by steps of the receiver alone, none of them a wait that ends for no reason:
-- it receives the front message or leaves the call for the termination.
pub pop_returns :
    (s : System)
    → Reach s
    → s.recv ≢ RecvPc.thrown
    → s.send ≡ SendPc.idle
    → (s.ending ≡ EndPc.running) ⊎ (s.ending ≡ EndPc.ended)
    → (s.messages ≢ []) ⊎ (s.terminated ≡ true)
    → (t : System) × RecvSteps s t × Returned s t
pop_returns s r inside idle ends ready =
    let inv = Reach-Inv r in
    elim (recv_cases s.recv) [
      | inl at ↦
          let (t, st, ret) =
            from_locked (record s { recv = RecvPc.locked; owner = Owner.receiver }) refl ready in
          (
            t,
            RecvSteps.more
                (RecvSteps.more RecvSteps.done
                  (RecvStep.lock at (free_owner s inv (rw at refl) idle ends)))
                st,
            ret,
          )
      | inr (inl at) ↦
          let (t, st, ret) = from_locked s at ready in (t, RecvSteps.more RecvSteps.done st, ret)
      | inr (inr (inl at)) ↦
          let (none_left, before) = inv.deciding_empty at in
          absurd (elim ready [
            | inl some_left ↦ some_left none_left
            | inr over ↦ ground (arith, inv.flag, over)
          ])
      | inr (inr (inr (inl at))) ↦
          let (none_left, live) = no_lost_wakeup s r at idle ends in
          absurd (elim ready [ inl some_left ↦ some_left none_left | inr over ↦ cc (live, over) ])
      | inr (inr (inr (inr (inl at)))) ↦
          let (t, st, ret) =
            from_locked (record s { recv = RecvPc.locked; owner = Owner.receiver }) refl ready in
          (
            t,
            RecvSteps.more
                (RecvSteps.more RecvSteps.done
                  (RecvStep.relock at (free_owner s inv (rw at refl) idle ends)))
                st,
            ret,
          )
      | inr (inr (inr (inr (inr at)))) ↦ absurd (inside at)
    ]
