-- ===== src/Vm/Build.antt =====
-- crates/vm/src/instruction.rs, lines 221 to 391: the helpers that build instructions.
use tordex.Prelude.{ℕ}
use tordex.Vm.Opcode
use tordex.Vm.Instruction.{Instruction, new, with_reg_a, with_reg_b, with_extra, with_imm}

unfoldable pub nop : Instruction
nop = new Opcode.nop

unfoldable pub load_imm : ℕ → ℕ → Instruction
load_imm reg value = with_imm (with_reg_a (new Opcode.load_imm) reg) value

unfoldable pub load_str : ℕ → ℕ → Instruction
load_str reg string_idx = with_imm (with_reg_a (new Opcode.load_str) reg) string_idx

unfoldable pub mov : ℕ → ℕ → Instruction
mov dst src = with_reg_b (with_reg_a (new Opcode.mov) dst) src

unfoldable pub fact : ℕ → ℕ → ℕ → Instruction
fact subj pred obj = with_extra (with_reg_b (with_reg_a (new Opcode.fact) subj) pred) obj

unfoldable pub query : ℕ → ℕ → Instruction
query dst query_reg = with_reg_b (with_reg_a (new Opcode.query) dst) query_reg

unfoldable pub relate : ℕ → ℕ → ℕ → Instruction
relate src kind tgt = with_extra (with_reg_b (with_reg_a (new Opcode.relate) src) kind) tgt

unfoldable pub infer : ℕ → ℕ → ℕ → Instruction
infer dst subj pred = with_extra (with_reg_b (with_reg_a (new Opcode.infer) dst) subj) pred

unfoldable pub push : ℕ → Instruction
push reg = with_reg_a (new Opcode.push) reg

unfoldable pub pop : ℕ → Instruction
pop reg = with_reg_a (new Opcode.pop) reg

unfoldable pub dup : Instruction
dup = new Opcode.dup

unfoldable pub swap : Instruction
swap = new Opcode.swap

unfoldable pub jmp : ℕ → Instruction
jmp offset = with_imm (new Opcode.jmp) offset

unfoldable pub jz : ℕ → ℕ → Instruction
jz reg offset = with_imm (with_reg_a (new Opcode.jz) reg) offset

unfoldable pub jnz : ℕ → ℕ → Instruction
jnz reg offset = with_imm (with_reg_a (new Opcode.jnz) reg) offset

unfoldable pub call : ℕ → Instruction
call offset = with_imm (new Opcode.call) offset

unfoldable pub ret : Instruction
ret = new Opcode.ret

unfoldable pub halt : Instruction
halt = new Opcode.halt

unfoldable pub search : ℕ → ℕ → Instruction
search dst idx = with_reg_b (with_reg_a (new Opcode.search) dst) idx

unfoldable index_ : ℕ → ℕ → Instruction
index_ reg idx = with_reg_b (with_reg_a (new Opcode.index) reg) idx

unfoldable pub rank : ℕ → ℕ → Instruction
rank dst results = with_reg_b (with_reg_a (new Opcode.rank) dst) results

unfoldable pub recall : ℕ → ℕ → Instruction
recall dst id_reg = with_reg_b (with_reg_a (new Opcode.recall) dst) id_reg

unfoldable pub consolidate : Instruction
consolidate = new Opcode.consolidate

unfoldable pub forget : ℕ → Instruction
forget reg = with_reg_a (new Opcode.forget) reg

unfoldable pub syscall : ℕ → Instruction
syscall number = with_imm (new Opcode.sys_call) number

unfoldable pub emit : ℕ → Instruction
emit ev_reg = with_reg_a (new Opcode.emit) ev_reg

unfoldable pub load_entity : ℕ → ℕ → Instruction
load_entity dst kind_reg = with_reg_b (with_reg_a (new Opcode.load_entity) dst) kind_reg

unfoldable pub load_graph : ℕ → ℕ → Instruction
load_graph dst entity_reg = with_reg_b (with_reg_a (new Opcode.load_graph) dst) entity_reg

unfoldable pub traverse : ℕ → ℕ → Instruction
traverse dst entity_reg = with_reg_b (with_reg_a (new Opcode.traverse) dst) entity_reg

unfoldable pub similar : ℕ → ℕ → ℕ → Instruction
similar dst value_reg threshold_reg =
    with_extra (with_reg_b (with_reg_a (new Opcode.similar) dst) value_reg) threshold_reg

unfoldable pub classify : ℕ → ℕ → Instruction
classify dst content_reg = with_reg_b (with_reg_a (new Opcode.classify) dst) content_reg

unfoldable pub reason : ℕ → ℕ → Instruction
reason dst fact_reg = with_reg_b (with_reg_a (new Opcode.reason) dst) fact_reg

unfoldable pub correlate : ℕ → ℕ → Instruction
correlate dst ent_a = with_reg_b (with_reg_a (new Opcode.correlate) dst) ent_a

unfoldable pub timeline : ℕ → ℕ → Instruction
timeline dst query_reg = with_reg_b (with_reg_a (new Opcode.timeline) dst) query_reg

unfoldable store_val : ℕ → Instruction
store_val reg = with_reg_a (new Opcode.store) reg

unfoldable pub snapshot : ℕ → ℕ → Instruction
snapshot dst kind = with_reg_b (with_reg_a (new Opcode.snapshot) dst) kind

unfoldable compare_ : ℕ → ℕ → Instruction
compare_ dst val_a = with_reg_b (with_reg_a (new Opcode.compare) dst) val_a
