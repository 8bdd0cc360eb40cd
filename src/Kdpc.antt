-- ===== src/Kdpc.antt =====
-- driver/ntoskernel.c: the queue of deferred procedure calls (KeInitializeDpc, queue_kdpc,
-- dequeue_kdpc, kdpc_worker and their callers). `kdpc_list` is a list of the addresses of kdpcs.
pub mod Queue
pub mod Drain
use ndiswrapper.Base.{
  ℕ, zero, suc, ◌≡◌, Bool, true, false, Option, none, some, List, [], ◌∷◌, ◌++◌, if◌then◌else◌,
  erase, update,
}

pub data Importance : Type 0 where
  low_importance medium_importance high_importance : Importance

-- `struct kdpc`, with `func` and `ctx` as the numbers that the driver passed.
pub record Kdpc : Type 0 where
  pub importance : Importance
  pub func : ℕ
  pub ctx : ℕ
  pub arg1 : ℕ
  pub arg2 : ℕ
  pub queued : Bool

-- `scheduled` counts the calls of queue_work(ntos_wq, &kdpc_work).
pub record Dpcs : Type 0 where
  pub kdpc : ℕ → Kdpc
  pub kdpc_list : List ℕ
  pub scheduled : ℕ

abbrev pub put : Dpcs → ℕ → Kdpc → Dpcs
put s p d = record s { kdpc = update s.kdpc p d }

-- memset to 0 makes the importance LowImportance and the kdpc not queued.
unfoldable pub ke_initialize_dpc : Dpcs → ℕ → ℕ → ℕ → Dpcs
ke_initialize_dpc s p func ctx = put s p (record {
  importance = low_importance;
  func = func;
  ctx = ctx;
  arg1 = 0;
  arg2 = 0;
  queued = false;
})

abbrev is_high : Importance → Bool
is_high high_importance = true
is_high _ = false

pub queue_kdpc : Dpcs → ℕ → Dpcs × Bool
queue_kdpc s p =
    let d = s.kdpc p in
    let list = if is_high d.importance then p ∷ s.kdpc_list else s.kdpc_list ++ p ∷ [] in
    if d.queued then (s, false) else (
      record (put s p (record d { queued = true })) {
        kdpc_list = list;
        scheduled = suc s.scheduled;
      },
      true,
    )

pub dequeue_kdpc : Dpcs → ℕ → Dpcs × Bool
dequeue_kdpc s p =
    let d = s.kdpc p in
    if d.queued
    then (record (put s p (record d { queued = false })) { kdpc_list = erase p s.kdpc_list }, true)
    else (s, false)

pub ke_insert_queue_dpc : Dpcs → ℕ → ℕ → ℕ → Dpcs × Bool
ke_insert_queue_dpc s p arg1 arg2 =
    queue_kdpc (put s p (record (s.kdpc p) { arg1 = arg1; arg2 = arg2 })) p

pub ke_remove_queue_dpc : Dpcs → ℕ → Dpcs × Bool
ke_remove_queue_dpc s p = dequeue_kdpc s p

pub ke_set_importance_dpc : Dpcs → ℕ → Importance → Dpcs
ke_set_importance_dpc s p importance = put s p (record (s.kdpc p) { importance = importance })

-- What one round of the loop of `kdpc_worker` leaves when it takes `p` off and `ps` stays.
pub taken : Dpcs → ℕ → List ℕ → Dpcs
taken s p ps = record (put s p (record (s.kdpc p) { queued = false })) { kdpc_list = ps }

abbrev pub log_call : ℕ → Option (List ℕ × Dpcs) → Option (List ℕ × Dpcs)
log_call p none = none
log_call p (some (calls, s)) = some (p ∷ calls, s)

-- The worker. `call p d s` is what the driver's function of the kdpc at `p` does to the kdpcs, given
-- the kdpc `d`. `none` means that the fuel ran out; otherwise the calls that were made, in order.
pub kdpc_worker : (ℕ → Kdpc → Dpcs → Dpcs) → ℕ → Dpcs → Option (List ℕ × Dpcs)
kdpc_worker call zero s = none
kdpc_worker call (suc fuel) s = elim s.kdpc_list [
  | [] ↦ some ([], s)
  | p ∷ ps ↦ log_call p (kdpc_worker call fuel (call p ((taken s p ps).kdpc p) (taken s p ps)))
]

pub ke_flush_queued_dpcs : (ℕ → Kdpc → Dpcs → Dpcs) → ℕ → Dpcs → Option (List ℕ × Dpcs)
ke_flush_queued_dpcs call fuel s = kdpc_worker call fuel s
