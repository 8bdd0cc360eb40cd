-- ===== src/Examples/Interlocked.antt =====
-- driver/ntoskernel.h: singly linked lists and levels on concrete states.
use ndiswrapper.Base.{◌≡◌, refl, true, some, List, [], ◌∷◌}
use ndiswrapper.Interlocked.{Slist, IrqlInfo, initialize_slist_head, raise_irql}
use ndiswrapper.Interlocked.Stack.{
  SlistOp, push, pop, Allowed, IsStack, apply_ops, stack_ops, slist_ops_refine,
}

abbrev list : Slist
list = record { head = record { next = 9; depth = 9 }; link = λ e. 0 }

abbrev ops : List SlistOp
ops = push 4 ∷ push 5 ∷ pop ∷ push 6 ∷ []

ops-Allowed : Allowed [] ops
unfolding Allowed
ops-Allowed = (refl, (refl, (refl, tt)))

slist_ops_refine_example :
    IsStack (apply_ops (initialize_slist_head list) ops).0 (stack_ops [] ops).0
    × ((apply_ops (initialize_slist_head list) ops).1 ≡ (stack_ops [] ops).1)
slist_ops_refine_example = slist_ops_refine ops list ops-Allowed

abbrev raised : IrqlInfo
raised = record { count = 1; task = 7; lock = true }

raised_run : raise_irql raised 7 ≡ some (record { count = 2; task = 7; lock = true }, 2)
unfolding raise_irql
raised_run = refl
