-- ===== src/Evmasm/ConstantOptimiser/Check.antt =====
-- libevmasm/ConstantOptimiser.cpp, `checkRepresentation`: the tiny virtual machine that evaluates a
-- routine. The head of the stack is its top.
use lity.Prelude.{
  ℕ, ◌+◌, ◌-◌, ◌*◌, ◌%◌, ◌^◌, ◌≡◌, refl, Bool, false, Option, none, some, List, [], ◌∷◌, ◌++◌,
  length, ltb, ◌==◌, if◌then◌else◌,
}
use lity.Evmasm.Opcode
use lity.Evmasm.Opcode.{Instruction}
use lity.Evmasm.Word.{word_mod, complement}
use lity.Evmasm.AssemblyItem.{AssemblyItem, push, operation, type_eq, arguments}

-- An instruction on the stack, none being `return false`.
unfoldable pub compute : Instruction → List ℕ → Option (List ℕ)
compute i [] = none
compute i (a ∷ []) = if i == Opcode.not then some (complement a ∷ []) else none
compute i (a ∷ b ∷ s) =
    if i == Opcode.mul
    then some (a * b % word_mod ∷ s)
    else (if i == Opcode.exp
        then (if ltb 0xff b then none else some (a ^ b % word_mod ∷ s))
        else (if i == Opcode.add
            then some ((a + b) % word_mod ∷ s)
            else (if i == Opcode.sub
                then some ((a + word_mod - b) % word_mod ∷ s)
                else (if i == Opcode.not then some (complement a ∷ b ∷ s) else none))))

unfoldable pub step : AssemblyItem → List ℕ → Option (List ℕ)
unfolding compute arguments
step it stack =
    if type_eq it.type operation
    then (if ltb (length stack) (arguments it) then none else compute it.instruction stack)
    else (if type_eq it.type push then some (it.data_value ∷ stack) else none)

abbrev pub then_run : (List ℕ → Option (List ℕ)) → Option (List ℕ) → Option (List ℕ)
then_run f none = none
then_run f (some s) = f s

unfoldable pub run : List AssemblyItem → List ℕ → Option (List ℕ)
unfolding step
run [] stack = some stack
run (it ∷ items) stack = then_run (λ s. run items s) (step it stack)

abbrev pub is_single : ℕ → Option (List ℕ) → Bool
is_single value (some (v ∷ [])) = v == value
is_single value _ = false

-- `checkRepresentation`
unfoldable pub check_representation : ℕ → List AssemblyItem → Bool
unfolding run
check_representation value routine = is_single value (run routine [])

pub run-append :
    (xs ys : List AssemblyItem) (s : List ℕ)
    → run (xs ++ ys) s ≡ then_run (λ t. run ys t) (run xs s)
unfolding run
run-append [] ys s = refl
run-append (x ∷ xs) ys s = after (λ t. run-append xs ys t) (step x s)
  where
    after :
        ((t : List ℕ) → run (xs ++ ys) t ≡ then_run (λ u. run ys u) (run xs t))
        → (o : Option (List ℕ))
        → then_run (λ t. run (xs ++ ys) t) o ≡ then_run (λ t. run ys t) (then_run (λ t. run xs t) o)
    after h none = refl
    after h (some t) = h t
