-- ===== src/Msg/Refine.antt =====
-- `sys_msgrcv` as an operation of the abstract queue.
use fiwix_arm.Base.{List, false, length, take, true, ℕ, ◌<◌, ◌≡◌, ◌≤◌, ◌⊎◌}
use fiwix_arm.Msg.Queue.{view, Holds}
use fiwix_arm.Msg.{msg_noerror, ℤ, Msgs}
use fiwix_arm.Msg.Receive.{asleep, refused, wait, over, received, Rcv, Round}
use fiwix_arm.Process.{has_bits}
use fiwix_arm.Base.Errno.{too_big}

-- What a receive makes of a message that it has found in the queue `seen`: the message is stored, cut
-- to `msgsz` bytes where that is allowed, and the queue is the others in their order; or it is too
-- long and stays.
abbrev pub Stored : Msgs → ℕ → List (ℤ × List ℕ) → ℤ → List ℕ → ℕ → Rcv → Type 0
Stored st q left type text msgsz r =
    (st' : Msgs) × (ids' : List ℕ) × (r ≡ received st' type (take msgsz text))
    × Holds st' q ids'
    × (view st'.msg_pool ids' ≡ left)

abbrev pub Handled : Msgs → ℕ → List (ℤ × List ℕ) → ℤ → List ℕ → ℕ → ℕ → Rcv → Type 0
Handled st q left type text msgsz msgflg r =
    (((length text ≤ msgsz) ⊎ (has_bits msgflg msg_noerror ≡ true))
      × Stored st q left type text msgsz r)
    ⊎ ((msgsz < length text) × (has_bits msgflg msg_noerror ≡ false) × (r ≡ refused st too_big))

-- The end of the call, where nothing ends a sleep.
abbrev end_of : Round → Rcv
end_of r = elim r [ over s ↦ s | wait _ ↦ asleep ]
