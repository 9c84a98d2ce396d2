-- ===== src/AgentProto/Tests.antt =====
-- Runs of src/lib/agent_proto.c over callbacks that move one byte at a time, and over ones that
-- move two.
use packetsonde.Prelude.{
  ℕ, zero, suc, ◌≡◌, ◌≤◌, arith, Option, none, some, List, [], ◌∷◌, ◌++◌, length, ap, get_or,
}
use packetsonde.AgentProto.{ApIo, frame_max, read_frame}
use packetsonde.AgentProto.Safe.{IsBounded, Gives, read_frame-Gives}

-- The state is the bytes on the wire.
abbrev write_one : List ℕ → List ℕ → Option ℕ × List ℕ
write_one wire [] = (some 0, wire)
write_one wire (b ∷ bs) = (some 1, wire ++ b ∷ [])

abbrev read_two : List ℕ → ℕ → Option (List ℕ) × List ℕ
read_two wire zero = (some [], wire)
read_two [] (suc n) = (some [], [])
read_two (a ∷ wire) (suc zero) = (some (a ∷ []), wire)
read_two (a ∷ []) (suc (suc n)) = (some (a ∷ []), [])
read_two (a ∷ b ∷ wire) (suc (suc n)) = (some (a ∷ b ∷ []), wire)

abbrev wire_io : ApIo
wire_io = record { State = List ℕ; read = read_two; write = write_one }

-- `{}` and `{"a":1}`.
abbrev payloads : List (List ℕ)
payloads = (123 ∷ 125 ∷ []) ∷ (123 ∷ 34 ∷ 97 ∷ 34 ∷ 58 ∷ 49 ∷ 125 ∷ []) ∷ []

-- A peer that sends one byte and then fails.
abbrev flaky : ApIo
flaky = record {
  State = ℕ;
  read = λ s n.
      (elim s [ zero ↦ elim n [ zero ↦ some [] | suc m ↦ some (7 ∷ []) ] | suc k ↦ none ], suc s);
  write = λ s buf. (none, s);
}

abbrev given : Option (List ℕ) → List ℕ
given none = []
given (some bs) = bs

flaky_IsBounded : IsBounded flaky
flaky_IsBounded zero s' zero bs e =
    omega (arith, ap (λ (r : Option (List ℕ) × ℕ). length (given r.0)) e)
flaky_IsBounded zero s' (suc n) bs e =
    omega (arith, ap (λ (r : Option (List ℕ) × ℕ). length (given r.0)) e)
flaky_IsBounded (suc s) s' n bs e =
    omega (arith, ap (λ (r : Option (List ℕ) × ℕ). length (given r.0)) e)

read_frame-Gives_example :
    Gives
      (λ payload.
        (2 ≤ length payload)
        × (get_or payload 0 0 ≡ 123)
        × (length payload ≤ frame_max)
        × (length payload ≤ 9))
      (read_frame flaky 0 9).0
read_frame-Gives_example = read_frame-Gives flaky flaky_IsBounded 0 9
