-- ===== src/Kdpc/Queue.antt =====
-- driver/ntoskernel.c: a kdpc stands on the list exactly while its `queued` flag is set.
use ndiswrapper.Base.{
  ℕ, ◌≡◌, true, false, [], ◌∷◌, arith, has, Distinct, has-append, has-erase, erase-Distinct,
  append-Distinct, erase-append,
}
use ndiswrapper.Kdpc.{Dpcs, queue_kdpc, dequeue_kdpc}

pub record IsConsistent (s : Dpcs) : Type 0 where
  pub flags : (p : ℕ) → has p s.kdpc_list ≡ (s.kdpc p).queued
  pub distinct : Distinct s.kdpc_list

queue_flags :
    (s : Dpcs) (p : ℕ)
    → IsConsistent s
    → (q : ℕ) → has q (queue_kdpc s p).0.kdpc_list ≡ ((queue_kdpc s p).0.kdpc q).queued
unfolding queue_kdpc
queue_flags s p c q = ground (arith, c.flags q, c.flags p, has-append q s.kdpc_list (p ∷ []))

queue-Distinct : (s : Dpcs) (p : ℕ) → IsConsistent s → Distinct (queue_kdpc s p).0.kdpc_list
unfolding queue_kdpc
queue-Distinct s p c = ground (arith, c.flags p, append-Distinct p s.kdpc_list c.distinct)

-- Queueing a kdpc keeps the list without repetitions, and its members just the kdpcs whose flag is set.
pub queue_kdpc-IsConsistent : (s : Dpcs) (p : ℕ) → IsConsistent s → IsConsistent (queue_kdpc s p).0
queue_kdpc-IsConsistent s p c = record {
  flags = queue_flags s p c;
  distinct = queue-Distinct s p c;
}

dequeue_flags :
    (s : Dpcs) (p : ℕ)
    → IsConsistent s
    → (q : ℕ) → has q (dequeue_kdpc s p).0.kdpc_list ≡ ((dequeue_kdpc s p).0.kdpc q).queued
unfolding dequeue_kdpc
dequeue_flags s p c q = ground (arith, c.flags q, c.flags p, has-erase q p s.kdpc_list c.distinct)

dequeue-Distinct : (s : Dpcs) (p : ℕ) → IsConsistent s → Distinct (dequeue_kdpc s p).0.kdpc_list
unfolding dequeue_kdpc
dequeue-Distinct s p c = ground (arith, erase-Distinct p s.kdpc_list c.distinct)

-- Taking a kdpc off keeps the list without repetitions, and its members just the kdpcs whose flag is
-- set.
pub dequeue_kdpc-IsConsistent :
    (s : Dpcs) (p : ℕ) → IsConsistent s → IsConsistent (dequeue_kdpc s p).0
dequeue_kdpc-IsConsistent s p c = record {
  flags = dequeue_flags s p c;
  distinct = dequeue-Distinct s p c;
}

queue_sets : (s : Dpcs) (p : ℕ) → ((queue_kdpc s p).0.kdpc p).queued ≡ true
unfolding queue_kdpc
queue_sets s p = ground arith

queue_kdpc_queued : (s : Dpcs) (p : ℕ) → (s.kdpc p).queued ≡ true → queue_kdpc s p ≡ (s, false)
unfolding queue_kdpc
queue_kdpc_queued s p e = rw e

-- Queueing a kdpc again while it is queued changes nothing and returns FALSE.
pub queue_kdpc_twice :
    (s : Dpcs) (p : ℕ) → queue_kdpc (queue_kdpc s p).0 p ≡ ((queue_kdpc s p).0, false)
queue_kdpc_twice s p = queue_kdpc_queued (queue_kdpc s p).0 p (queue_sets s p)

-- In a consistent queue, a kdpc that was not queued, is queued and is removed again: the list is as
-- before, the removal returns TRUE and the flag is clear.
pub dequeue-queue :
    (s : Dpcs) (p : ℕ)
    → IsConsistent s
    → (s.kdpc p).queued ≡ false
    → ((dequeue_kdpc (queue_kdpc s p).0 p).0.kdpc_list ≡ s.kdpc_list)
      × ((dequeue_kdpc (queue_kdpc s p).0 p).1 ≡ true)
      × (((dequeue_kdpc (queue_kdpc s p).0 p).0.kdpc p).queued ≡ false)
unfolding queue_kdpc dequeue_kdpc
dequeue-queue s p c q = ground (arith, c.flags p, erase-append p s.kdpc_list)

-- A kdpc that was not queued.
pub queued_kdpc :
    (d : Dpcs) (p : ℕ)
    → (d.kdpc p).queued ≡ false
    → (has p (queue_kdpc d p).0.kdpc_list ≡ true)
      × (((queue_kdpc d p).0.kdpc p).func ≡ (d.kdpc p).func)
      × (((queue_kdpc d p).0.kdpc p).ctx ≡ (d.kdpc p).ctx)
unfolding queue_kdpc
queued_kdpc d p e =
    (ground (arith, has-append p d.kdpc_list (p ∷ [])), ground (arith, e), ground (arith, e))
