-- ===== src/Memlib.antt =====
-- memlib.c: the simulated heap and its break. The area that `malloc` hands to `mem_init` is an
-- argument; pointers are addresses, and `NULL` or `(void *)-1` is `none`.
pub mod Sbrk
use malloc_lab.Base.{ℕ, ◌+◌, ◌-◌, ◌*◌, ◌^◌, ◌||◌, Option, none, some, ltb, leb, if◌then◌else◌}

pub record Vm : Type 0 where
  pub start_brk : ℕ
  pub brk : ℕ
  pub max_addr : ℕ

-- 20 MB.
abbrev pub max_heap : ℕ
max_heap = 20 * 2 ^ 20

-- `none` is `exit(1)`: there was no memory to simulate with.
unfoldable pub mem_init : Option ℕ → Option Vm
mem_init none = none
mem_init (some area) = some (record { start_brk = area; brk = area; max_addr = area + max_heap })

unfoldable pub mem_reset_brk : Vm → Vm
mem_reset_brk vm = record vm { brk = vm.start_brk }

-- `incr` is the bit pattern of an `int`, negative from `2 ^ 31` on.
unfoldable pub mem_sbrk : ℕ → Vm → Option ℕ × Vm
mem_sbrk incr vm =
    if leb (2 ^ 31) incr || ltb vm.max_addr (vm.brk + incr)
    then (none, vm)
    else (some vm.brk, record vm { brk = vm.brk + incr })

unfoldable pub mem_heap_lo : Vm → ℕ
mem_heap_lo vm = vm.start_brk

unfoldable pub mem_heap_hi : Vm → ℕ
mem_heap_hi vm = vm.brk - 1

unfoldable pub mem_heapsize : Vm → ℕ
mem_heapsize vm = vm.brk - vm.start_brk
