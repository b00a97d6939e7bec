-- ===== src/Dispatch64/Tests.antt =====
-- The 64-bit runtime's calls at concrete inputs, and the theorems about them there
-- (src/runtime64/dispatch64.c).
use systemes3recomp.Prelude.{
  ◌≤◌, All, ◌⊎◌, ℕ, zero, suc, ◌*◌, ◌+◌, ◌-◌, ◌%◌, ◌^◌, ◌<◌, ◌≡◌, inr, refl, ◌∙◌, Bool, false, leb,
  ◌==◌, if◌then◌else◌, none, some, List, [], ◌∷◌, get_or, take, Bytes, arith,
}
use systemes3recomp.Jvs.{codes}
use systemes3recomp.Memory.{Memory, copy_in, rd32, rd64, rd64-wr64_apart}
use systemes3recomp.Dispatch64.{
  to_preferred, Body, Program, Runtime, Ending, returns, calls, dispatch, lookup, lower_bound,
  dump_callstack, cs_max, run_body,
}
use systemes3recomp.Dispatch64.Lookup.{first_of, lookup-first_of}
use systemes3recomp.Dispatch64.Kept.{Restores, dispatch-Restores}
use systemes3recomp.Dispatch64.Stack.{entered, dump_callstack-entered}
use systemes3recomp.Dispatch64.Opened.{no_files}
use systemes3recomp.Dispatch64.Answers.{
  forward, Regs, Machine, Host, ThreadStart, push_return, initterm_end, native_call, sentinel,
}
use systemes3recomp.Dispatch64.Answers.Frame.{Popped, native_call-Popped}
use systemes3recomp.Dispatch64.Answers.Initterm.{
  Holds, returning, run_all, UpToFailure, initterm_lem,
}
use systemes3recomp.Dispatch64.Bridge.{enter, Context, Fault, Guest, rsp, bridge_callback}
use systemes3recomp.Dispatch64.Bridge.Laws.{
  IsEntry, from_callee, scratch, bridge_callback_lem, enter_nested,
}

abbrev table : List (ℕ × ℕ)
table = (0x1000, 1) ∷ (0x1040, 2) ∷ (0x2000, 3) ∷ []

lookup-first_of_example : lookup table 0x1040 ≡ first_of table 0x1040
lookup-first_of_example = lookup-first_of table 0x1040 (omega arith)

-- The first function calls the second one, which returns.
abbrev code : ℕ → ℕ → ℕ → Body ℕ
code fn cpu s =
    if fn == 1 then calls false cpu 0x1040 (s + 1) (λ t. returns t) else returns (s + 10)

abbrev program : Program ℕ
program = record {
  sorted = table;
  code = code;
  native = λ target cpu s. returns s;
  delta = 0;
  text_lo = 0x1000;
  text_hi = 0x3000;
  io_board_call = λ va s. s;
  limit = 5;
  log_calls = [];
  watch_serialize = 0;
  watch_reader = 0;
  log_callees = false;
}

abbrev start : Runtime
start = record { depth = 0; stack = λ i. 0; cur = 0; armed = false; count = 0 }

dispatch-Restores_example : Restores 5 start (dispatch 3 program false 9 0x1000 start 0)
dispatch-Restores_example = dispatch-Restores 3 program false 9 0x1000 start 0

dump_callstack-entered_example :
    dump_callstack (entered (0x2000 ∷ 0x1000 ∷ []) start)
    ≡ (if leb 2 cs_max then some (take 40 (0x2000 ∷ 0x1000 ∷ [])) else none)
dump_callstack-entered_example = dump_callstack-entered (0x2000 ∷ 0x1000 ∷ []) start refl

abbrev opened : List Bytes
opened = codes "b.upk" ∷ codes "a.ini" ∷ []

abbrev regs : Regs
regs = record { rax = 0; rcx = 0x300; rdx = 0; rsp = 0x10000; r8 = 0; r9 = 0; xmm = λ i. 0 }

abbrev machine : Machine
machine = record { regs = regs; memory = λ a. 0; files = no_files }

abbrev host : Host
host = record {
  addresses = record {
    get_command_line_w = 1;
    get_command_line_a = 2;
    get_system_metrics = 3;
    message_box_w = 4;
    message_box_a = 5;
    cxx_throw_exception = 6;
    hasp_login = 7;
    hasp_logout = 8;
    hasp_read = 9;
    hasp_decrypt = 10;
    raise_exception = 11;
    direct_input8_create = 12;
    create_thread = 13;
    initterm = 14;
    initterm_e = 15;
    create_file_w = 16;
    create_file_a = 17;
  };
  command_line_w = 0x100;
  command_line_a = 0x200;
  screen_w = 1920;
  screen_h = 1080;
  swallow_raise = false;
  own_module = 0x7000;
  shim = 0x8000;
  malloc = λ s. 0x9000;
  eh_throw = λ a b c s. none;
  invoke = λ f m. (1, 0, m);
  path = λ m wide a. codes "a.ini";
}

-- The guest's functions return, each with its return address off the stack.
abbrev pops : Bool → ℕ → ℕ → Runtime → Machine → Ending Machine
pops jump cpu target r s =
    Ending.returned r (record s { regs = record s.regs { rsp = (s.regs.rsp + 8) % 2 ^ 64 } })

native_call-Popped_example : Popped 0x10000 (run_body pops (native_call host 9 15 machine) start)
native_call-Popped_example =
    native_call-Popped pops (λ jump cpu target r s. refl) host 9 15 machine start

abbrev thread : ThreadStart
thread = record { guest_fn = 0x1000; param = 0x1234; stack = 0 }

-- A table of two functions and an empty slot, at 0x300.
abbrev fns : List ℕ
fns = 5 ∷ 0 ∷ 7 ∷ []

abbrev with_table : Machine
with_table = record machine {
  regs = record machine.regs { rcx = 0x300; rdx = 0x318 };
  memory = copy_in (copy_in (λ a. 0) 0x300 (5 ∷ [])) 0x310 (7 ∷ []);
}

-- A function that answers its own address.
abbrev call : ℕ → Machine → Machine
call fn s = record s { regs = record s.regs { rax = fn; rsp = (s.regs.rsp + 8) % 2 ^ 64 } }

-- The stack stays where it is, and the table as it is.
abbrev Inv : Machine → Type 0
Inv s = (s.regs.rsp ≡ 0x10000) × Holds 0x300 fns s

table_read : (i : ℕ) → i < 3 → rd64 with_table.memory (0x300 + 8 * i) ≡ get_or fns i 0
unfolding rd64 rd32 copy_in
table_read zero h = refl
table_read (suc zero) h = refl
table_read (suc (suc zero)) h = refl
table_read (suc (suc (suc i))) h = absurd (omega arith)

with_table-Inv : Inv with_table
with_table-Inv = (refl, table_read)

call-Inv : (fn : ℕ) (s : Machine) → Inv s → Inv (call fn (push_return s))
unfolding push_return
call-Inv fn s v = (
  omega (arith, v.0),
  λ i h.
      rd64-wr64_apart s.memory ((s.regs.rsp + 2 ^ 64 - 8) % 2 ^ 64) (0x300 + 8 * i) sentinel
        (inr (omega (arith, v.0)))
      ∙ v.1 i h,
)

initterm_lem_example :
    (run_body (returning call) (forward host 9 14 with_table) start
      ≡ Ending.returned start (initterm_end 0x300 0x318 0 (run_all call fns with_table)))
    × ((rc : ℕ) × (t : Machine) × (run_body (returning call) (forward host 9 15 with_table) start
          ≡ Ending.returned start (initterm_end 0x300 0x318 rc t))
        × UpToFailure call fns with_table rc t)
initterm_lem_example =
    initterm_lem Inv call host 9 fns with_table start
      (
        (λ e. omega arith),
        (λ e. omega arith),
        (λ e. omega arith),
        (λ e. omega arith),
        (λ e. omega arith),
      )
      call-Inv (λ x v. v.1) with_table-Inv (λ e. omega arith) refl

abbrev caller : Context
caller = record { gpr = λ i. if i == rsp then 0x7fff8 else i; rip = 0x1040; xmm = λ i. 0 }

-- The host has moved its stack by 0x1000 when it calls again.
abbrev inner_caller : Context
inner_caller = record { gpr = λ i. if i == rsp then 0x7eff8 else i; rip = 0x1040; xmm = λ i. 0 }

abbrev guest : Guest
guest = record { base = 0x400; text_lo = 0x1000; text_hi = 0x3000; sorted = table; delta = 0 }

abbrev fault : Fault
fault = record { code = 0xC0000005; access = 8; address = 0x1040 }

found : lookup table (to_preferred 0 0x1040) ≡ some 2
unfolding lookup lower_bound
found = refl

-- The lifted function answers 42.
abbrev lifted : ℕ → Context → Memory → Context × Memory
lifted fn c m = (record c { gpr = λ i. if i == 0 then 42 else c.gpr i }, m)

bridge_callback_lem_example :
    (stack : ℕ) × (cpu : Context) × (framed : Memory) × (out : Context) × (m' : Memory)
    × (bridge_callback guest lifted 0x900000 fault caller 0 (λ a. a) ≡ some (out, stack, m'))
    × (stack ≡ 0x900000)
    × IsEntry 0x900000 0 caller (λ a. a) cpu framed
    × (out.rip ≡ rd64 (λ a. a) 0x7fff8)
    × (out.gpr rsp ≡ 0x80000)
    × All (λ i. out.gpr i ≡ (lifted 0x1040 cpu framed).0.gpr i) from_callee
    × All (λ i. out.gpr i ≡ caller.gpr i) scratch
    × ((i : ℕ) → out.xmm i ≡ (lifted 0x1040 cpu framed).0.xmm i)
    × ((i : ℕ) → i < 32 → m' (0x7fff8 + 8 + i) ≡ (lifted 0x1040 cpu framed).1 (cpu.gpr rsp + 8 + i))
    × ((x : ℕ) → (x < 0x7fff8 + 8) ⊎ (0x7fff8 + 40 ≤ x) → m' x ≡ (lifted 0x1040 cpu framed).1 x)
bridge_callback_lem_example =
    bridge_callback_lem guest lifted 0x900000 fault caller 0 (λ a. a) 2 refl refl (λ e. omega arith)
      (omega arith) (omega arith) found (omega arith) (omega arith)

enter_nested_example :
    let (stack, cpu, framed) = enter 0x900000 0 caller (λ a. a) in
    let (stack', cpu', framed') = enter 0xa00000 stack inner_caller (λ a. a) in
    (stack' ≡ stack) × (cpu'.gpr rsp ≡ cpu.gpr rsp) × (framed' (cpu.gpr rsp + 0) ≡ 0x7eff8 + 0)
enter_nested_example =
    enter_nested 0x900000 0xa00000 0 caller inner_caller (λ a. a) (λ a. a) 0 (omega arith)
      (omega arith) (omega arith) refl (omega arith)
