-- ===== src/Idt/Reports.antt =====
-- What kernel/idt/idt.c prints of an exception: the panic's dump, the page fault, the fault of a task.
use toast_os.Prelude.{
  ℕ, ◌^◌, ◌%◌, refl, Bool, true, false, List, [], ◌∷◌, ◌++◌, ◌==◌, ◌&&◌, not, if◌then◌else◌, ltb,
  bit_and, codes, get_or,
}
use toast_os.Stdio.{printf, vprintf_core, print_spec, printf_number, digits}
use toast_os.Stdio.Calls.{Call, format, run_call, prints, number, string}
use toast_os.Stdio.Ends.{Ends, Ends-append, Ends-blank, Ends-nil}
use toast_os.Tasks.State.{Kernel}
use toast_os.Idt.{SystemState, from_user}

-- The other fields of `system_state` that are printed.
pub record Registers : Type 0 where
  pub rax : ℕ
  pub rbx : ℕ
  pub rcx : ℕ
  pub rdx : ℕ
  pub rsi : ℕ
  pub rdi : ℕ
  pub rbp : ℕ
  pub r8 : ℕ
  pub r9 : ℕ
  pub r10 : ℕ
  pub r11 : ℕ
  pub r12 : ℕ
  pub r13 : ℕ
  pub r14 : ℕ
  pub r15 : ℕ
  pub rip : ℕ
  pub rsp : ℕ
  pub ss : ℕ
  pub rflags : ℕ
  pub error_code : ℕ

pub excep_trace : List (List ℕ)
excep_trace =
    codes "Divide Error (#DE)"
    ∷ codes "Debug Exception (#DB)"
    ∷ codes "NMI Interrupt (NMI)"
    ∷ codes "Breakpoint (#BP)"
    ∷ codes "Overflow (#OF)"
    ∷ codes "BOUND Range Exceeded (#BR)"
    ∷ codes "Invalid Opcode (#UD)"
    ∷ codes "Device Not Available (#NM)"
    ∷ codes "Double Fault (#DF)"
    ∷ codes "Coprocessor Segment Overrun"
    ∷ codes "Invalid TSS (#TS)"
    ∷ codes "Segment Not Present (#NP)"
    ∷ codes "Stack-Segment Fault (#SS)"
    ∷ codes "General Protection (#GP)"
    ∷ codes "Page Fault (#PF)"
    ∷ codes "Intel Reserved"
    ∷ codes "x87 FPU Floating-Point Error (#MF)"
    ∷ codes "Alignment Check (#AC)"
    ∷ codes "Machine Check (#MC)"
    ∷ codes "SIMD Floating-Point Exception (#XM)"
    ∷ codes "Virtualization Exception (#VE)"
    ∷ codes "Control Protection Exception (#CP)"
    ∷ codes "Reserved"
    ∷ codes "Reserved"
    ∷ codes "Reserved"
    ∷ codes "Reserved"
    ∷ codes "Reserved"
    ∷ codes "Reserved"
    ∷ codes "Reserved"
    ∷ codes "Reserved"
    ∷ codes "Reserved"
    ∷ codes "Reserved"
    ∷ []

abbrev pub bar : Call
bar = format (codes "==========================================================\n") []

abbrev pub thin_bar : Call
thin_bar = format (codes "----------------------------------------------------------\n") []

abbrev pub two : (fmt : List ℕ) → (a b : ℕ) → Call
two fmt a b = format fmt (number a ∷ number b ∷ [])

-- The part of `kpanic` under `if (sys)`.
pub dump : SystemState → Registers → List Call
dump sys r =
    thin_bar
    ∷ two (codes "  RAX=%016llx  RBX=%016llx\n") r.rax r.rbx
    ∷ two (codes "  RCX=%016llx  RDX=%016llx\n") r.rcx r.rdx
    ∷ two (codes "  RSI=%016llx  RDI=%016llx\n") r.rsi r.rdi
    ∷ two (codes "  RBP=%016llx  RSP=%016llx\n") r.rbp r.rsp
    ∷ two (codes "  R8 =%016llx  R9 =%016llx\n") r.r8 r.r9
    ∷ two (codes "  R10=%016llx  R11=%016llx\n") r.r10 r.r11
    ∷ two (codes "  R12=%016llx  R13=%016llx\n") r.r12 r.r13
    ∷ two (codes "  R14=%016llx  R15=%016llx\n") r.r14 r.r15
    ∷ thin_bar
    ∷ two (codes "  RIP=%016llx  CS =%016llx\n") r.rip sys.cs
    ∷ two (codes "  RSP=%016llx  SS =%016llx\n") r.rsp r.ss
    ∷ format (codes "  RFLAGS=%016llx\n") (number r.rflags ∷ [])
    ∷ format (codes "  Error code: %llx\n") (number r.error_code ∷ [])
    ∷ thin_bar
    ∷ []

-- `kpanic` with a `sys` that is not NULL; `message` is the call of `vprintf`.
pub kpanic : SystemState → Registers → (message : Call) → List Call
unfolding dump
kpanic sys r message =
    format (codes "\n") []
    ∷ bar
    ∷ format (codes "                    *** KERNEL PANIC ***                  \n") []
    ∷ bar
    ∷ message
    ∷ format (codes "\n") []
    ∷ (dump sys r ++ format (codes "System halted.\n") [] ∷ bar ∷ [])

-- `names` gives the text of a task's name. The pid is printed as an `int`.
pub user_fault_report : (names : ℕ → List ℕ) → Kernel → Registers → (what : List ℕ) → List Call
user_fault_report names k r what =
    let task = k.tcb k.current_task in
    format (codes "\n[user fault] pid %d (%s): %s at rip=%016llx rsp=%016llx err=%llx\n") (
      number (task.pid % 2 ^ 32)
      ∷ string (names task.name)
      ∷ string what
      ∷ number r.rip
      ∷ number r.rsp
      ∷ number r.error_code
      ∷ [])
    ∷ []

abbrev pub cause : (ec bit : ℕ) → (yes' no' : List ℕ) → List ℕ
cause ec bit yes' no' = if bit_and ec bit == 0 then no' else yes'

pub page_fault_report : Registers → (cr2 : ℕ) → List Call
page_fault_report r cr2 =
    format (codes "\n[PAGE FAULT]\n") []
    ∷ format (codes "Faulting addr: %016llx\n") (number cr2 ∷ [])
    ∷ format (codes "RIP          : %016llx\n") (number r.rip ∷ [])
    ∷ format (codes "Cause        : %s %s %s %s %s\n") (
        string (cause r.error_code 1 (codes "Protection violation") (codes "non-present page"))
        ∷ string (cause r.error_code 2 (codes "write") (codes "read"))
        ∷ string (cause r.error_code 4 (codes "user") (codes "kernel"))
        ∷ string (cause r.error_code 8 (codes "reserved bit") [])
        ∷ string (cause r.error_code 16 (codes "NX-violation") [])
        ∷ [])
    ∷ []

-- What `isr_handler` prints before it kills the task or halts.
module _ (names : ℕ → List ℕ) (k : Kernel) (sys : SystemState) (r : Registers) where
  pub pf_report : (cr2 : ℕ) → List Call
  unfolding page_fault_report user_fault_report kpanic
  pf_report cr2 =
      page_fault_report r cr2
      ++ (if from_user k sys
          then user_fault_report names k r (codes "page fault")
          else kpanic sys r (format (codes "Unhandled page fault at %016llx") (number cr2 ∷ [])))

  pub isr_report : (cr2 : ℕ) → List Call
  unfolding pf_report user_fault_report kpanic excep_trace
  isr_report cr2 =
      let n = sys.interr_num in
      let what = get_or excep_trace n [] in
      if n == 14
      then pf_report cr2
      else if ltb n 32
      then (if from_user k sys && (not (n == 2) && (not (n == 8) && not (n == 18)))
          then user_fault_report names k r what
          else kpanic sys r (format (codes "Exception: %s") (string what ∷ [])))
      else []

Ends-kpanic :
    (sys : SystemState) (r : Registers) (a : ℕ)
    → Ends (kpanic sys r (format (codes "Unhandled page fault at %016llx") (number a ∷ [])))
unfolding kpanic dump printf vprintf_core print_spec printf_number digits prints run_call
Ends-kpanic sys r a =
    Ends-blank (kpanic sys r (format (codes "Unhandled page fault at %016llx") (number a ∷ [])))
      (_, refl)

Ends-exception :
    (sys : SystemState) (r : Registers) (what : List ℕ)
    → Ends (kpanic sys r (format (codes "Exception: %s") (string what ∷ [])))
unfolding kpanic dump printf vprintf_core print_spec printf_number digits prints run_call
Ends-exception sys r what =
    Ends-blank (kpanic sys r (format (codes "Exception: %s") (string what ∷ []))) (_, refl)

Ends-user_fault :
    (names : ℕ → List ℕ) (k : Kernel) (r : Registers) (what : List ℕ)
    → Ends (user_fault_report names k r what)
unfolding user_fault_report printf vprintf_core print_spec printf_number digits prints run_call
Ends-user_fault names k r what = Ends-blank (user_fault_report names k r what) (_, refl)

Ends-page_fault : (r : Registers) (cr2 : ℕ) → Ends (page_fault_report r cr2)
unfolding page_fault_report printf vprintf_core print_spec printf_number digits prints run_call
Ends-page_fault r cr2 = Ends-blank (page_fault_report r cr2) (_, refl)

Ends-if : (b : Bool) (cs ds : List Call) → Ends cs → Ends ds → Ends (if b then cs else ds)
Ends-if true cs ds h k = h
Ends-if false cs ds h k = k

Ends-pf_report :
    (names : ℕ → List ℕ) (k : Kernel) (sys : SystemState) (r : Registers) (cr2 : ℕ)
    → Ends (pf_report names k sys r cr2)
unfolding pf_report
Ends-pf_report names k sys r cr2 =
    let killed = user_fault_report names k r (codes "page fault") in
    let panic = kpanic sys r (format (codes "Unhandled page fault at %016llx") (number cr2 ∷ [])) in
    Ends-append (page_fault_report r cr2) (if from_user k sys then killed else panic)
      (Ends-page_fault r cr2)
      (Ends-if (from_user k sys) killed panic (Ends-user_fault names k r (codes "page fault"))
        (Ends-kpanic sys r cr2))

-- The report of an exception comes to its end whatever the registers hold, no number passing the
-- buffer of printf and no argument missing.
pub Ends-isr_report :
    (names : ℕ → List ℕ) (k : Kernel) (sys : SystemState) (r : Registers) (cr2 : ℕ)
    → Ends (isr_report names k sys r cr2)
unfolding isr_report
Ends-isr_report names k sys r cr2 =
    let n = sys.interr_num in
    let what = get_or excep_trace n [] in
    let own = from_user k sys && (not (n == 2) && (not (n == 8) && not (n == 18))) in
    let killed = user_fault_report names k r what in
    let panic = kpanic sys r (format (codes "Exception: %s") (string what ∷ [])) in
    Ends-if (n == 14) (pf_report names k sys r cr2)
      (if ltb n 32 then (if own then killed else panic) else []) (Ends-pf_report names k sys r cr2)
      (Ends-if (ltb n 32) (if own then killed else panic) []
        (Ends-if own killed panic (Ends-user_fault names k r what) (Ends-exception sys r what))
        Ends-nil)
