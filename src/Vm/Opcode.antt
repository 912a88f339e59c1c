-- ===== src/Vm/Opcode.antt =====
-- crates/vm/src/instruction.rs, lines 8 to 101: the opcodes and their numbers.
use tordex.Prelude.{ℕ, ◌<◌, ◌≡◌, refl, Option, some, List, [], ◌∷◌, nat_eq, arith}
use tordex.Prelude.Map.{get, AllEntries, get-All}

pub data Opcode : Type 0 where
  nop load_imm load_str mov load_entity load_graph traverse compare fact query relate infer similar
        classify reason correlate timeline push pop dup swap jmp jz jnz call ret halt search index
        rank recall consolidate forget store snapshot sys_call emit :
      Opcode

-- `opcode as u8`
unfoldable pub byte : Opcode → ℕ
byte nop = 0
byte load_imm = 1
byte load_str = 2
byte mov = 3
byte load_entity = 4
byte load_graph = 5
byte traverse = 6
byte compare = 7
byte fact = 16
byte query = 17
byte relate = 18
byte infer = 19
byte similar = 20
byte classify = 21
byte reason = 22
byte correlate = 23
byte timeline = 24
byte push = 32
byte pop = 33
byte dup = 34
byte swap = 35
byte jmp = 48
byte jz = 49
byte jnz = 50
byte call = 51
byte ret = 52
byte halt = 53
byte search = 64
byte index = 65
byte rank = 66
byte recall = 80
byte consolidate = 81
byte forget = 82
byte store = 83
byte snapshot = 84
byte sys_call = 96
byte emit = 97

-- The rows of the match.
abbrev pub rows : List (ℕ × Opcode)
rows =
    (0, nop)
    ∷ (1, load_imm)
    ∷ (2, load_str)
    ∷ (3, mov)
    ∷ (4, load_entity)
    ∷ (5, load_graph)
    ∷ (6, traverse)
    ∷ (7, compare)
    ∷ (16, fact)
    ∷ (17, query)
    ∷ (18, relate)
    ∷ (19, infer)
    ∷ (20, similar)
    ∷ (21, classify)
    ∷ (22, reason)
    ∷ (23, correlate)
    ∷ (24, timeline)
    ∷ (32, push)
    ∷ (33, pop)
    ∷ (34, dup)
    ∷ (35, swap)
    ∷ (48, jmp)
    ∷ (49, jz)
    ∷ (50, jnz)
    ∷ (51, call)
    ∷ (52, ret)
    ∷ (53, halt)
    ∷ (64, search)
    ∷ (65, index)
    ∷ (66, rank)
    ∷ (80, recall)
    ∷ (81, consolidate)
    ∷ (82, forget)
    ∷ (83, store)
    ∷ (84, snapshot)
    ∷ (96, sys_call)
    ∷ (97, emit)
    ∷ []

unfoldable pub from_u8 : ℕ → Option Opcode
from_u8 byte = get rows byte

-- Every opcode has its own number, below 256, and is found under it.
pub from_u8-byte : (o : Opcode) → from_u8 (byte o) ≡ some o
unfolding byte from_u8 get
from_u8-byte nop = refl
from_u8-byte load_imm = refl
from_u8-byte load_str = refl
from_u8-byte mov = refl
from_u8-byte load_entity = refl
from_u8-byte load_graph = refl
from_u8-byte traverse = refl
from_u8-byte compare = refl
from_u8-byte fact = refl
from_u8-byte query = refl
from_u8-byte relate = refl
from_u8-byte infer = refl
from_u8-byte similar = refl
from_u8-byte classify = refl
from_u8-byte reason = refl
from_u8-byte correlate = refl
from_u8-byte timeline = refl
from_u8-byte push = refl
from_u8-byte pop = refl
from_u8-byte dup = refl
from_u8-byte swap = refl
from_u8-byte jmp = refl
from_u8-byte jz = refl
from_u8-byte jnz = refl
from_u8-byte call = refl
from_u8-byte ret = refl
from_u8-byte halt = refl
from_u8-byte search = refl
from_u8-byte index = refl
from_u8-byte rank = refl
from_u8-byte recall = refl
from_u8-byte consolidate = refl
from_u8-byte forget = refl
from_u8-byte store = refl
from_u8-byte snapshot = refl
from_u8-byte sys_call = refl
from_u8-byte emit = refl

pub byte-Bounded : (o : Opcode) → byte o < 256
unfolding byte
byte-Bounded nop = omega arith
byte-Bounded load_imm = omega arith
byte-Bounded load_str = omega arith
byte-Bounded mov = omega arith
byte-Bounded load_entity = omega arith
byte-Bounded load_graph = omega arith
byte-Bounded traverse = omega arith
byte-Bounded compare = omega arith
byte-Bounded fact = omega arith
byte-Bounded query = omega arith
byte-Bounded relate = omega arith
byte-Bounded infer = omega arith
byte-Bounded similar = omega arith
byte-Bounded classify = omega arith
byte-Bounded reason = omega arith
byte-Bounded correlate = omega arith
byte-Bounded timeline = omega arith
byte-Bounded push = omega arith
byte-Bounded pop = omega arith
byte-Bounded dup = omega arith
byte-Bounded swap = omega arith
byte-Bounded jmp = omega arith
byte-Bounded jz = omega arith
byte-Bounded jnz = omega arith
byte-Bounded call = omega arith
byte-Bounded ret = omega arith
byte-Bounded halt = omega arith
byte-Bounded search = omega arith
byte-Bounded index = omega arith
byte-Bounded rank = omega arith
byte-Bounded recall = omega arith
byte-Bounded consolidate = omega arith
byte-Bounded forget = omega arith
byte-Bounded store = omega arith
byte-Bounded snapshot = omega arith
byte-Bounded sys_call = omega arith
byte-Bounded emit = omega arith

rows-numbered : AllEntries (λ k v. byte v ≡ k) rows
unfolding byte
rows-numbered = (
  refl,
  (
    refl,
    (
      refl,
      (
        refl,
        (
          refl,
          (
            refl,
            (
              refl,
              (
                refl,
                (
                  refl,
                  (
                    refl,
                    (
                      refl,
                      (
                        refl,
                        (
                          refl,
                          (
                            refl,
                            (
                              refl,
                              (
                                refl,
                                (
                                  refl,
                                  (
                                    refl,
                                    (
                                      refl,
                                      (
                                        refl,
                                        (
                                          refl,
                                          (
                                            refl,
                                            (
                                              refl,
                                              (
                                                refl,
                                                (
                                                  refl,
                                                  (
                                                    refl,
                                                    (
                                                      refl,
                                                      (
                                                        refl,
                                                        (
                                                          refl,
                                                          (
                                                            refl,
                                                            (
                                                            refl,
                                                            (
                                                            refl,
                                                            (
                                                            refl,
                                                            (refl, (refl, (refl, (refl, tt)))),
                                                            ),
                                                            ),
                                                            ),
                                                          ),
                                                        ),
                                                      ),
                                                    ),
                                                  ),
                                                ),
                                              ),
                                            ),
                                          ),
                                        ),
                                      ),
                                    ),
                                  ),
                                ),
                              ),
                            ),
                          ),
                        ),
                      ),
                    ),
                  ),
                ),
              ),
            ),
          ),
        ),
      ),
    ),
  ),
)

-- A number stands for an opcode only if it is the number of it.
pub byte-from_u8 : (b : ℕ) (o : Opcode) → from_u8 b ≡ some o → byte o ≡ b
unfolding from_u8
byte-from_u8 b o h = get-All (λ k v. byte v ≡ k) rows b o rows-numbered h
