-- ===== src/Syscall.antt =====
-- syscall/syscall.c: `syscall_handler`, over the parts of the kernel that it calls. A program's memory
-- is seen by its address: the bytes between `_user_start` and `_user_end` are those of the programs'
-- heap, all others those of the kernel's. The source checks no pointer of its caller; only pointers into
-- the payload of a block are modelled, not what it would read or overwrite elsewhere. A string is read up to its NUL, a pointer to a record is
-- written byte by byte, the lowest first. `none` means that the fuel of a loop ran out.
pub mod Handler
pub mod Wrappers
pub mod Start
pub mod Text
pub mod Calls
mod Tests
use kernel_c.Prelude.{
  ℕ, zero, suc, ◌+◌, ◌-◌, ◌/◌, ◌%◌, Bool, ◌&&◌, Option, none, some, ◌>>=◌, List, [], ◌∷◌, ◌++◌,
  if◌then◌else◌, ◌==◌, ltb, leb, ℤ, pos, negsuc, u8, u32,
}
use kernel_c.Heap.{Heap, null}
use kernel_c.Fs.Table.{Volume}
use kernel_c.Vga.{Screen, update_hardware_cursor}
use kernel_c.Keyboard.{Keyboard}
use kernel_c.Port.{PortWrite}
use kernel_c.Power.{Memory, PowerWrite}
use kernel_c.Kmalloc.Stats.{Stats}
use kernel_c.Multitask.{TaskState, task_running, task_ready, task_blocked, task_zombie, Kernel}
use kernel_c.Multitask.Zombies.{TaskInfo}

-- What the handler's calls touch. `firmware` is the memory that `power_off` searches, and `kbc` the
-- status bytes that `reboot_system` reads.
pub record System : Type 0 where
  pub kernel : Kernel
  pub volume : Volume
  pub screen : Screen
  pub keyboard : Keyboard
  pub firmware : Memory
  pub kbc : List ℕ

-- the registers that hold the number and the arguments
pub record Registers : Type 0 where
  pub rax : ℕ
  pub rdi : ℕ
  pub rsi : ℕ
  pub rdx : ℕ
  pub r10 : ℕ
  pub r8 : ℕ
  pub r9 : ℕ

-- the calls, with the arguments as the handler casts them
pub data Call : Type 0 where
  sys_print_char_position : ℕ → ℕ → ℕ → ℕ → ℕ → Call
  sys_print_string_position : ℕ → ℕ → ℕ → ℕ → ℕ → Call
  sys_print_char : ℕ → ℕ → ℕ → Call
  sys_print_string : ℕ → ℕ → ℕ → Call
  sys_backspace : Call
  sys_get_time : ℕ → ℕ → Call
  sys_clean_screen : Call
  sys_malloc : ℕ → Call
  sys_realloc : ℕ → ℕ → Call
  sys_free : ℕ → Call
  sys_kmalloc_stats : ℕ → Call
  sys_getchar : Call
  sys_setposcursor : ℕ → ℕ → Call
  sys_power_off : Call
  sys_reboot : Call
  sys_task_create : ℕ → Call
  sys_task_list : ℕ → ℕ → Call
  sys_task_stop : ℤ → Call
  sys_reap_zombies : Call
  sys_task_exit : ℕ → Call
  sys_task_is_alive : ℤ → Call

-- the `int` with these 32 bits
abbrev pub to_int : ℕ → ℤ
to_int n = if ltb n 2147483648 then pos n else negsuc (4294967295 - n)

-- an `int`, or a `char`, as a 64-bit word
abbrev pub int_word : ℤ → ℕ
int_word (pos n) = n
int_word (negsuc n) = 18446744073709551615 - n

abbrev pub char_word : ℕ → ℕ
char_word c = if ltb c 128 then c else 18446744073709551360 + c

-- what is returned for a character: the `char` -1 of an empty buffer becomes 0
abbrev pub typed_word : ℕ → ℕ
typed_word c = if c == 255 then 0 else char_word c

-- the `case` for the number `n`, with the arguments; `none` is the `default` of the `switch`
unfoldable pub case_of : ℕ → Registers → Option Call
case_of n r =
    if n == 0
    then some (sys_print_char_position (u8 r.rdi) (u32 r.rsi) (u32 r.rdx) (u8 r.r10) (u8 r.r8))
    else if n == 1
    then some (sys_print_string_position r.rdi (u32 r.rsi) (u32 r.rdx) (u8 r.r10) (u8 r.r8))
    else if n == 2
    then some (sys_print_char (u8 r.rdi) (u8 r.rsi) (u8 r.rdx))
    else if n == 3
    then some (sys_print_string r.rdi (u8 r.rsi) (u8 r.rdx))
    else if n == 4
    then some sys_backspace
    else if n == 5
    then some (sys_get_time (u32 r.rdi) r.rsi)
    else if n == 6
    then some sys_clean_screen
    else if n == 10
    then some (sys_malloc r.rdi)
    else if n == 12
    then some (sys_free r.rdi)
    else if n == 11
    then some (sys_realloc r.rdi r.rsi)
    else if n == 13
    then some (sys_kmalloc_stats r.rdi)
    else if n == 30
    then some sys_getchar
    else if n == 31
    then some (sys_setposcursor (u8 r.rdi) (u8 r.rsi))
    else if n == 100
    then some sys_power_off
    else if n == 101
    then some sys_reboot
    else if n == 200
    then some (sys_task_create r.rdi)
    else if n == 201
    then some (sys_task_list r.rdi r.rsi)
    else if n == 202
    then some (sys_task_stop (to_int (u32 r.rdi)))
    else if n == 203
    then some sys_reap_zombies
    else if n == 204
    then some (sys_task_exit (u32 r.rdi))
    else if n == 205
    then some (sys_task_is_alive (to_int (u32 r.rdi)))
    else none

unfoldable pub decode : Registers → Option Call
unfolding case_of
decode r = case_of (u32 r.rax) r

-- the memory at an address
abbrev pub is_user : Kernel → ℕ → Bool
is_user k a = leb k.user_heap.heap_start a && ltb a k.user_heap.managed_end

abbrev pub byte_at : Kernel → ℕ → ℕ
byte_at k a = if is_user k a then k.user_heap.bytes a else k.heap.bytes a

abbrev pub set_byte : Heap → ℕ → ℕ → Heap
set_byte h a b = record h { bytes = λ q. if q == a then b else h.bytes q }

abbrev pub poke_byte : Kernel → ℕ → ℕ → Kernel
poke_byte k a b =
    if is_user k a
    then record k { user_heap = set_byte k.user_heap a b }
    else record k { heap = set_byte k.heap a b }

unfoldable pub poke_bytes : Kernel → ℕ → List ℕ → Kernel
poke_bytes k a [] = k
poke_bytes k a (b ∷ bs) = poke_bytes (poke_byte k a b) (a + 1) bs

-- the C string at an address
unfoldable pub string_at : ℕ → Kernel → ℕ → Option (List ℕ)
string_at zero k a = none
string_at (suc n) k a =
    let rest = string_at n k (a + 1) in
    if byte_at k a == 0 then some [] else (rest >>= λ str. some (byte_at k a ∷ str))

-- the lowest `n` bytes of a number
unfoldable pub le_bytes : ℕ → ℕ → List ℕ
le_bytes zero v = []
le_bytes (suc n) v = v % 256 ∷ le_bytes n (v / 256)

-- `kmalloc_stats_t` in memory
unfoldable pub stats_bytes : Stats → List ℕ
unfolding le_bytes
stats_bytes st =
    le_bytes 8 st.total_managed
    ++ (le_bytes 8 st.used_payload
        ++ (le_bytes 8 st.free_payload
            ++ (le_bytes 8 st.largest_free
                ++ (le_bytes 8 st.num_blocks
                    ++ (le_bytes 8 st.num_used ++ le_bytes 8 st.num_free)))))

-- the numbers of `task_state_t`
abbrev pub state_number : TaskState → ℕ
state_number task_running = 0
state_number task_ready = 1
state_number task_blocked = 2
state_number task_zombie = 3

-- an array of `task_info_t`
unfoldable pub infos_bytes : List TaskInfo → List ℕ
unfolding le_bytes
infos_bytes [] = []
infos_bytes (i ∷ infos) =
    le_bytes 4 i.pid ++ (le_bytes 4 (state_number i.state) ++ infos_bytes infos)

-- the cursor of the hardware moves, that of the screen stays
unfoldable pub move_cursor : Screen → ℕ → ℕ → Screen
unfolding update_hardware_cursor
move_cursor s x y = record (update_hardware_cursor (record s { x = x; y = y })) { x = s.x; y = s.y }

-- A call returns a value, or ends in a loop of `hlt`: that of a stopped task, of a machine that is to
-- be off, or of one that is to restart.
pub data Outcome : Type 0 where
  returned : ℕ → System → Outcome
  halted : System → Outcome
  off : List PowerWrite → System → Outcome
  restarted : List PortWrite → System → Outcome
