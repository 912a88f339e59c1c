-- ===== src/Tests/Machines.antt =====
-- A program for the virtual machine with a call, and its parts.
use tordex.Prelude.{
  ℕ, ◌≡◌, refl, true, false, some, none, List, [], ◌∷◌, take, drop, replicate, ok, arith,
}
use tordex.Prelude.Outcome.{returned, Returns}
use tordex.Vm.Opcode.{Opcode, byte, from_u8, from_u8-byte}
use tordex.Vm.Instruction.{Instruction, Bytes8, bytes, encode, decode, with_fields, from_le_bytes}
use tordex.Vm.Instruction.Codec.{Proper, decode-encode, encode-decode}
use tordex.Vm.Register.{RegisterFile, RegisterValue, Json, write}
use tordex.Vm.Register
use tordex.Vm.Register.{Sized}
use tordex.Vm.Stack.{InferenceStack, push}
use tordex.Vm.Stack.Laws.{PushSound, push-Sound}
use tordex.Vm.Program.{Program, encode_program}
use tordex.Vm.Program.Layout.{encode_program-instruction}
use tordex.Vm.Machine.{Outside, Context, jump_target}
use tordex.Vm.Front.{run_with_args}
use tordex.Vm.Front.Runs.{RunsWith, run_with_args-RunsWith}
use tordex.Vm.Executor.Sizes.{Kept, InBounds, step-Kept}
use tordex.Vm.Executor.{step, execute}
use tordex.Vm.Executor.Total.{Ended, execute-Ended}
use tordex.Vm.Executor.Calls.{EmptyCall, Exceeded, execute-EmptyCall}

abbrev call_two : Instruction
call_two = record { opcode = Opcode.call; reg_a = 0; reg_b = 0; extra = 0; imm = 2 }

abbrev halt : Instruction
halt = record { opcode = Opcode.halt; reg_a = 0; reg_b = 0; extra = 0; imm = 0 }

abbrev ret : Instruction
ret = record { opcode = Opcode.ret; reg_a = 0; reg_b = 0; extra = 0; imm = 0 }

abbrev call_two_bytes : Bytes8
call_two_bytes = record { b0 = 51; b1 = 0; b2 = 0; b3 = 0; b4 = 2; b5 = 0; b6 = 0; b7 = 0 }

abbrev calling : Program ℕ
calling = record {
  name = "calling";
  version = "0.1.0";
  instructions = call_two ∷ halt ∷ ret ∷ [];
  constants = 7 ∷ [];
  entry_point = 0;
  metadata = [];
}

abbrev one_byte : ℕ → List ℕ
one_byte v = v ∷ []

abbrev json : Json ℕ ℕ ℕ ℕ
json = record {
  of_int = λ n. n;
  of_float = λ n. n;
  of_bool = λ b. 0;
  of_string = λ s. 0;
  of_knowledge = λ n. n;
  of_relationship = λ n. n;
  of_entity = λ k i. 0;
  of_facts = λ v. 0;
  null = 0;
}

-- A world in which every system call succeeds.
abbrev outside : Outside ℕ ℕ ℕ ℕ ℕ
outside = record {
  json = json;
  as_str = λ v. none;
  float_zero = λ f. false;
  handle = λ w args. (record { success = true; value = 0; data_out = none; error = none }, w);
  json_text = λ v. "";
  word_text = λ v. "";
  knowledge = λ i vs w. returned (ok none, w);
}

abbrev ready : Context ℕ ℕ ℕ ℕ ℕ
ready = record {
  regs = record { regs = replicate 32 Register.nil };
  stack = record { inner = []; max_depth = 4 };
  pc = 0;
  return_stack = [];
  program = calling;
  world = 0;
  running = false;
  cycles = 0;
  max_cycles = 100;
}

known_51 : from_u8 51 ≡ some Opcode.call
unfolding from_u8 byte
known_51 = from_u8-byte Opcode.call

decode-encode_example : decode (encode call_two) ≡ some call_two
decode-encode_example = decode-encode call_two (omega arith)

call_two_bytes-Proper : Proper call_two_bytes
call_two_bytes-Proper = record {
  fourth = omega arith;
  fifth = omega arith;
  sixth = omega arith;
  seventh = omega arith;
}

decoded : decode call_two_bytes ≡ some call_two
unfolding decode with_fields from_le_bytes
decoded = rw known_51 refl

encode-decode_example : encode call_two ≡ call_two_bytes
encode-decode_example = encode-decode call_two_bytes call_two call_two_bytes-Proper decoded

abbrev small_stack : InferenceStack ℕ
small_stack = record { inner = 1 ∷ 2 ∷ []; max_depth = 3 }

push-Sound_example : PushSound small_stack 8 (push small_stack 8)
push-Sound_example = push-Sound small_stack 8

encode_program-instruction_example :
    take 8 (drop 32 (encode_program one_byte calling)) ≡ bytes (encode ret)
encode_program-instruction_example = encode_program-instruction one_byte calling 2 ret refl

outside-Returns :
    (i : Instruction) (vs : List (RegisterValue ℕ ℕ ℕ)) (w : ℕ)
    → Returns {0, 0} (λ a. Unit) (outside.knowledge i vs w)
outside-Returns i vs w = tt

execute-Ended_example : Returns (Ended outside 100) (execute outside ready)
execute-Ended_example = execute-Ended outside outside-Returns ready

ready-EmptyCall : EmptyCall calling.instructions 0
unfolding jump_target
ready-EmptyCall = record {
  caller = call_two;
  routine = ret;
  calls = refl;
  is_call = refl;
  target = refl;
  is_ret = refl;
}

execute-EmptyCall_example : Returns (Exceeded outside) (execute outside ready)
execute-EmptyCall_example = execute-EmptyCall outside ready ready-EmptyCall

-- Two arguments for one register.
abbrev arguments : List (ℕ × RegisterValue ℕ ℕ ℕ)
arguments = (3, Register.int 4) ∷ (5, Register.nil) ∷ (3, Register.int 6) ∷ []

run_with_args-RunsWith_example :
    Returns (RunsWith outside calling 0 arguments) (run_with_args outside calling 0 arguments)
run_with_args-RunsWith_example = run_with_args-RunsWith outside outside-Returns calling 0 arguments

ready-InBounds : InBounds ready
ready-InBounds = (refl, omega arith)

step-Kept_example : Returns Kept (step outside ready)
step-Kept_example = step-Kept outside outside-Returns ready ready-InBounds
