-- ===== src/Yul/Evaluation.antt =====
-- What expressions of Yul compute. This is the specification against which the optimiser is proved:
-- arguments are evaluated from the last one on, and instructions, calls and literals are parameters.
use lity.Prelude.{ℕ, ◌≡◌, true, List, [], ◌∷◌}
use lity.Evmasm.Opcode.{Instruction}
use lity.Evmasm.SemanticInformation.{movable}
use lity.Yul.Expression.{
  Name, LiteralKind, Expression, Arguments, functional_instruction, function_call, identifier,
  literal, no_argument, argument,
}

pub record Meaning (State : Type 0) : Type 0 where
  pub run : Instruction → List ℕ → State → ℕ × State
  pub call : Name → List ℕ → State → ℕ × State
  pub literal_value : LiteralKind → Name → Name → ℕ

-- The values of the variables.
abbrev pub Variables : Type 0
Variables = Name → ℕ

module _ {State : Type 0} (m : Meaning State) (variables : Variables) where
  unfoldable mutual
    pub eval : Expression → State → ℕ × State
    eval (functional_instruction i arguments) s =
        let (values, after) = eval_all arguments s in m.run i values after
    eval (function_call f arguments) s =
        let (values, after) = eval_all arguments s in m.call f values after
    eval (identifier n) s = (variables n, s)
    eval (literal k v t) s = (m.literal_value k v t, s)

    pub eval_all : Arguments → State → List ℕ × State
    eval_all no_argument s = ([], s)
    eval_all (argument e rest) s =
        let (values, after) = eval_all rest s in
        let (value, end) = eval e after in (value ∷ values, end)

-- What the table of instructions says of those that are movable: they change nothing, and what they
-- compute depends on their arguments only.
abbrev pub IsPure : {State : Type 0} → Meaning State → Type 0
IsPure {State} m =
    (i : Instruction) (values : List ℕ) (s t : State)
    → movable i ≡ true
    → ((m.run i values s).1 ≡ s) × ((m.run i values s).0 ≡ (m.run i values t).0)
