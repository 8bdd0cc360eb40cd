-- ===== src/Examples/Wrapmem.antt =====
-- driver/wrapmem.c: the accounting on a concrete memory.
use ndiswrapper.Base.{◌≡◌, refl, inl, arith, [], ◌∷◌, ◌==◌, if◌then◌else◌}
use ndiswrapper.Wrapmem.{kfreed, vfreed, Memory, wrapmem_exit}
use ndiswrapper.Wrapmem.Balance.{IsBalanced}
use ndiswrapper.Wrapmem.Exit.{exit_releases_everything}

-- Allocations of 16 bytes with kmalloc and vmalloc, and one of 8 bytes on the slack list.
abbrev some_memory : Memory
some_memory = record {
  info = λ p. record { type = if p == 100 then 0 else 3; size = 16 };
  allocs = 100 ∷ 200 ∷ [];
  slack_size = λ _. 8;
  slack_allocs = 300 ∷ [];
  alloc_sizes = λ t. if t == 0 then 16 else if t == 3 then 16 else if t == 4 then 8 else 0;
  released = [];
}

balanced : IsBalanced some_memory 0
balanced = record { counter = refl; distinct = (refl, (refl, tt)) }

exit_releases_everything_example :
    ((wrapmem_exit some_memory).slack_allocs ≡ [])
    × ((wrapmem_exit some_memory).allocs ≡ [])
    × ((wrapmem_exit some_memory).released ≡ kfreed 300 ∷ kfreed 100 ∷ vfreed 200 ∷ [])
exit_releases_everything_example =
    exit_releases_everything some_memory (inl (omega arith), (inl (omega arith), tt))
