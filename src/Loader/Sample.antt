-- ===== src/Loader/Sample.antt =====
-- A volume with one program in /bin, and a kernel that can run it.
use kernel_c.Prelude.{refl, true, false, [], ◌∷◌, arith, if◌then◌else◌, ◌==◌}
use kernel_c.Heap.{Heap}
use kernel_c.Heap.Cells.{cell, header, IsHeap}
use kernel_c.Fs.{end_of_chain}
use kernel_c.Fs.Table.{Entry, Volume, root, zeroed, put}
use kernel_c.Multitask.{Kernel}
use kernel_c.Multitask.Sample.{sample_cells, sample_heap, reaped}
use kernel_c.Loader.{bin}

-- /bin, and in it the file a.bin of three bytes
abbrev pub bin_dir : Entry
bin_dir = record zeroed { name = bin; parent = 0; used = true; is_dir = true }

abbrev pub program : Entry
program = record {
  name = 97 ∷ [];
  ext = bin;
  parent = 1;
  first_cluster = 2;
  size = 3;
  used = true;
  is_dir = false;
}

abbrev pub sample_volume : Volume
sample_volume = record {
  entries = put (put (put (λ i. zeroed) 0 root) 1 bin_dir) 2 program;
  fat = λ c. if c == 2 then end_of_chain else 0;
  disk = λ a. 0xF4;
}

abbrev pub user_heap : Heap
user_heap = record sample_heap {
  magic = 0xC0FFEE00;
  mem = λ a.
      if a == 0x100000
      then header 0xC0FFEE00 (cell 80 false) 0 0x100078
      else header 0xC0FFEE00 (cell 20000 true) 0x100000 0;
}

abbrev pub ready_kernel : Kernel
ready_kernel = record reaped { user_heap = user_heap }

pub user_heap-IsHeap : IsHeap user_heap sample_cells
user_heap-IsHeap = record {
  above = omega arith;
  in_range = omega arith;
  chain = (refl, (refl, tt));
  head_is = refl;
  tail_is = refl;
}
