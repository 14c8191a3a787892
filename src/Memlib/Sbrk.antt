-- ===== src/Memlib/Sbrk.antt =====
-- `mem_sbrk` of memlib.c on its two branches.
use malloc_lab.Base.{ℕ, ◌+◌, ◌≤◌, ◌<◌, ◌≡◌, ◌⊎◌, none, some, arith}
use malloc_lab.Memlib.{Vm, mem_sbrk}

pub mem_sbrk_moves :
    (incr : ℕ) (vm : Vm)
    → incr < 0x8000_0000
    → vm.brk + incr ≤ vm.max_addr
    → mem_sbrk incr vm ≡ (some vm.brk, record vm { brk = vm.brk + incr })
unfolding mem_sbrk
mem_sbrk_moves incr vm positive room = ground arith

pub mem_sbrk_refuses :
    (incr : ℕ) (vm : Vm)
    → (0x8000_0000 ≤ incr) ⊎ (vm.max_addr < vm.brk + incr)
    → mem_sbrk incr vm ≡ (none, vm)
unfolding mem_sbrk
mem_sbrk_refuses incr vm refused = ground arith
