-- ===== src/Multitask/Sample.antt =====
-- Test data: a ring of three tasks of which the last is a zombie, the same ring without it, and a
-- kernel's heap with room for more.
use kernel_c.Prelude.{refl, true, false, List, [], ◌∷◌, arith, if◌then◌else◌, ◌==◌}
use kernel_c.Heap.{Heap, null}
use kernel_c.Heap.Cells.{Cell, cell, header, IsHeap}
use kernel_c.Multitask.{task_ready, task_zombie, Task, TaskStore, Kernel, blank_task}
use kernel_c.Multitask.Ring.{IsRing}
use kernel_c.Multitask.Members.{Members}

abbrev pub first_task : Task
first_task = record blank_task { next = 0x100028 }

abbrev pub second_task : Task
second_task = record blank_task { pid = 1; state = task_ready; regs = 0x8000; next = 0x3000 }

abbrev pub third_task : Task
third_task = record blank_task { pid = 2; state = task_zombie; next = 0x1000 }

abbrev pub sample_tasks : TaskStore
sample_tasks p =
    if p == 0x1000 then first_task else if p == 0x100028 then second_task else third_task

-- the block of the second task, and a free one
abbrev pub sample_cells : List Cell
sample_cells = cell 80 false ∷ cell 20000 true ∷ []

abbrev pub sample_heap : Heap
sample_heap = record {
  magic = 0xB16B00B5;
  heap_start = 0x100000;
  head = 0x100000;
  tail = 0x100078;
  managed_end = 0x104EC0;
  brk = 0x104EC0;
  mem = λ a.
      if a == 0x100000
      then header 0xB16B00B5 (cell 80 false) 0 0x100078
      else header 0xB16B00B5 (cell 20000 true) 0x100000 0;
  bytes = λ a. 0;
}

-- The first task runs, the second is ready, the third is a zombie that nobody has reaped.
abbrev pub sample : Kernel
sample = record {
  tasks = sample_tasks;
  qwords = λ a. 0;
  heap = sample_heap;
  user_heap = record sample_heap { magic = 0xC0FFEE00 };
  init_task = 0x1000;
  init_task_stack = 0x4000;
  task_ring = 0x3000;
  current = 0x1000;
  next_pid = 3;
  zombie_list = 0x3000;
  kstack_top = 0x8000;
  interrupts = true;
}

pub sample-IsRing : IsRing sample.tasks sample.current (0x100028 ∷ 0x3000 ∷ [])
sample-IsRing = record {
  links = (refl, (refl, refl));
  present = ((λ e. omega (arith, e)), ((λ e. omega (arith, e)), ((λ e. omega (arith, e)), tt)));
  distinct = (
    ((λ e. omega (arith, e)), ((λ e. omega (arith, e)), tt)),
    (((λ e. omega (arith, e)), tt), (tt, tt)),
  );
}

pub sample-Members : Members sample (0x1000 ∷ 0x100028 ∷ 0x3000 ∷ [])
sample-Members = record {
  others = 0x1000 ∷ 0x100028 ∷ [];
  order = refl;
  ring = record {
    links = (refl, (refl, refl));
    present = ((λ e. omega (arith, e)), ((λ e. omega (arith, e)), ((λ e. omega (arith, e)), tt)));
    distinct = (
      ((λ e. omega (arith, e)), ((λ e. omega (arith, e)), tt)),
      (((λ e. omega (arith, e)), tt), (tt, tt)),
    );
  };
}

-- the same kernel once the zombie is gone
abbrev pub reaped : Kernel
reaped = record sample {
  tasks = λ p. if p == 0x1000 then first_task else record second_task { next = 0x1000 };
  task_ring = 0x100028;
  zombie_list = null;
}

pub reaped-Members : Members reaped (0x1000 ∷ 0x100028 ∷ [])
reaped-Members = record {
  others = 0x1000 ∷ [];
  order = refl;
  ring = record {
    links = (refl, refl);
    present = ((λ e. omega (arith, e)), ((λ e. omega (arith, e)), tt));
    distinct = (((λ e. omega (arith, e)), tt), (tt, tt));
  };
}

pub sample-IsHeap : IsHeap sample_heap sample_cells
sample-IsHeap = record {
  above = omega arith;
  in_range = omega arith;
  chain = (refl, (refl, tt));
  head_is = refl;
  tail_is = refl;
}
