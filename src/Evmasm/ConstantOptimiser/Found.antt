-- ===== src/Evmasm/ConstantOptimiser/Found.antt =====
-- libevmasm/ConstantOptimiser.cpp: what `findRepresentation` finds computes the value.
use lity.Prelude.{
  ℕ, suc, ◌+◌, ◌-◌, ◌*◌, ◌%◌, ◌^◌, ◌<◌, ◌≡◌, refl, ap, sym, subst, ◌∙◌, Bool, true, false, ◌||◌,
  ◌&&◌, Option, some, List, max, [], ◌∷◌, ◌++◌, length, ltb, ◌==◌, if◌then◌else◌, arith, ok,
  Bool-cases, ==_iff, inl, inr,
}
use lity.Prelude.Modulo.{mul-mod-mod}
use lity.Evmasm.Opcode
use lity.Evmasm.Opcode.{Instruction}
use lity.Evmasm.Instruction.{instruction_info}
use lity.Evmasm.Word.{word_mod, max_word}
use lity.Evmasm.AssemblyItem.{
  AssemblyItem, op, push_item, push, operation, type_eq, arguments, bytes_required,
  item_bytes_required, bytes_by_type,
}
use lity.Evmasm.Machine.Runs.Known.{type_eq→eq}
use lity.Devcore.CommonData as Bytes
use lity.Evmasm.GasMeter.{exp_gas, create_data_gas, tx_data_non_zero_gas, run_gas, tier_gas}
use lity.Evmasm.ConstantOptimiser.{
  Params, combine_gas, number_of_exps, composed, item_gas, simple_run_gas, gas_needed,
}
use lity.Evmasm.ConstantOptimiser.Check.{compute, step, then_run, run, run-append}

-- The items of which routines consist.
abbrev pub is_plain : AssemblyItem → Bool
is_plain it =
    type_eq it.type push
    || (type_eq it.type operation
        && (it.instruction == Opcode.not
            || it.instruction == Opcode.exp
            || it.instruction == Opcode.mul
            || it.instruction == Opcode.add
            || it.instruction == Opcode.sub))

unfoldable pub all_plain : List AssemblyItem → Bool
all_plain [] = true
all_plain (it ∷ items) = is_plain it && all_plain items

plain-append :
    (xs ys : List AssemblyItem)
    → all_plain xs ≡ true
    → all_plain ys ≡ true
    → all_plain (xs ++ ys) ≡ true
unfolding all_plain
plain-append [] ys h k = k
plain-append (x ∷ xs) ys h k = ground (arith, plain-append xs ys)

plain_op_gas :
    (i : Instruction)
    → (i == Opcode.not || i == Opcode.exp || i == Opcode.mul || i == Opcode.add || i == Opcode.sub)
      ≡ true
    → (g : ℕ) × ((if i == Opcode.exp then ok exp_gas else run_gas i) ≡ ok g)
unfolding run_gas tier_gas instruction_info
plain_op_gas i h = elim (Bool-cases (i == Opcode.exp)) [
  | inl e ↦ (exp_gas, rw e refl)
  | inr n ↦ elim (Bool-cases (i == Opcode.not)) [
    | inl e ↦ let k : i ≡ Opcode.not = ground arith in (3, rw k refl)
    | inr n₁ ↦ elim (Bool-cases (i == Opcode.mul)) [
      | inl e ↦ let k : i ≡ Opcode.mul = ground arith in (5, rw k refl)
      | inr n₂ ↦ elim (Bool-cases (i == Opcode.add)) [
        | inl e ↦ let k : i ≡ Opcode.add = ground arith in (3, rw k refl)
        | inr n₃ ↦ let k : i ≡ Opcode.sub = ground arith in (3, rw k refl)
      ]
    ]
  ]
]

push_gas : (g : ℕ) × (run_gas Opcode.push1 ≡ ok g)
unfolding run_gas tier_gas instruction_info
push_gas = (3, refl)

item_gas-plain : (it : AssemblyItem) → is_plain it ≡ true → (g : ℕ) × (item_gas it ≡ ok g)
unfolding item_gas
item_gas-plain it h = elim (Bool-cases (type_eq it.type push)) [
  | inl e ↦ let (g, k) = push_gas in (g, rw e k)
  | inr n ↦
      let t : type_eq it.type operation ≡ true = ground arith in
      let (g, k) = plain_op_gas it.instruction (ground arith) in (g, rw (n, t) k)
]

item_bytes-plain :
    (it : AssemblyItem) → is_plain it ≡ true → (n : ℕ) × (item_bytes_required 3 it ≡ ok n)
unfolding item_bytes_required bytes_by_type
item_bytes-plain it h = elim (Bool-cases (type_eq it.type push)) [
  | inl e ↦
      let k : it.type ≡ push = type_eq→eq _ _ e in
      (1 + max 1 (Bytes.bytes_required it.data_value), rw k refl)
  | inr n ↦ let k : it.type ≡ operation = type_eq→eq _ _ (ground arith) in (1, rw k refl)
]

gas-plain :
    (items : List AssemblyItem) → all_plain items ≡ true → (g : ℕ) × (simple_run_gas items ≡ ok g)
unfolding simple_run_gas all_plain
gas-plain [] h = (0, refl)
gas-plain (it ∷ items) h =
    let (g, k) = item_gas-plain it (ground arith) in
    let (gs, ks) = gas-plain items (ground arith) in (g + gs, rw (k, ks) refl)

bytes-plain :
    (items : List AssemblyItem) → all_plain items ≡ true → (n : ℕ) × (bytes_required 3 items ≡ ok n)
unfolding bytes_required all_plain
bytes-plain [] h = (0, refl)
bytes-plain (it ∷ items) h =
    let (n, k) = item_bytes-plain it (ground arith) in
    let (ns, ks) = bytes-plain items (ground arith) in (n + ns, rw (k, ks) refl)

-- The gas of a routine is known: no assertion on tiers or types fails.
pub gas_needed-plain :
    (p : Params) (items : List AssemblyItem)
    → all_plain items ≡ true
    → (g : ℕ) × (gas_needed p items ≡ ok g)
unfolding gas_needed
gas_needed-plain p items h =
    let (g, k) = gas-plain items h in
    let (n, ks) = bytes-plain items h in
    (
      combine_gas p (g + number_of_exps items * (exp_gas + p.exp_byte_gas))
          (n * (if p.is_creation then tx_data_non_zero_gas else create_data_gas)) 0,
      rw (k, ks) refl,
    )

-- A routine that leaves the value on the stack, whatever is below.
pub record Computes (routine : List AssemblyItem) (value : ℕ) : Type 0 where
  pub runs : (s : List ℕ) → run routine s ≡ some (value ∷ s)
  pub plain : all_plain routine ≡ true

append-run :
    (xs ys : List AssemblyItem) (s t : List ℕ) (o : Option (List ℕ))
    → run xs s ≡ some t
    → run ys t ≡ o
    → run (xs ++ ys) s ≡ o
append-run xs ys s t o h k = run-append xs ys s ∙ ap (then_run (λ u. run ys u)) h ∙ k

pub push-Computes : (v : ℕ) → Computes (push_item v ∷ []) v
unfolding run step all_plain
push-Computes v = record { runs = λ s. refl; plain = refl }

negated :
    (v : ℕ)
    → v < word_mod
    → (s : List ℕ) → run (op Opcode.not ∷ []) ((max_word - v) ∷ s) ≡ some (v ∷ s)
unfolding run step compute arguments instruction_info
negated v h [] = ap (λ (t : ℕ). some (t ∷ [])) (omega arith)
negated v h (b ∷ s) =
    let enough : ltb (suc (suc (length s))) 1 ≡ false = ground arith in
    let twice : max_word - (max_word - v) ≡ v = omega arith in rw (enough, twice) refl

pub not-Computes :
    (r : List AssemblyItem) (v : ℕ)
    → v < word_mod
    → Computes r (max_word - v)
    → Computes (r ++ op Opcode.not ∷ []) v
not-Computes r v h c = record {
  runs = λ s. append-run r _ s _ _ (c.runs s) (negated v h s);
  plain = plain-append r _ c.plain (unfold all_plain in refl);
}

-- What stands for an operand that may be left out.
abbrev pub Operand : Bool → List AssemblyItem → ℕ → Type 0
Operand true r v = r ≡ []
Operand false r v = Computes r v

abbrev product : ℕ → ℕ → List AssemblyItem → List AssemblyItem
product bits upper high =
    push_item bits
    ∷ push_item 2
    ∷ op Opcode.exp
    ∷ (if upper == 1 then [] else high ++ op Opcode.mul ∷ [])

two_operands : (s : List ℕ) → ltb (suc (suc (length s))) 2 ≡ false
two_operands s = ground arith

power-run :
    (bits : ℕ) (s : List ℕ)
    → bits < 256
    → run (push_item bits ∷ push_item 2 ∷ op Opcode.exp ∷ []) s ≡ some (2 ^ bits % word_mod ∷ s)
unfolding run step compute arguments instruction_info
power-run bits s h =
    let small : ltb 0xff bits ≡ false = ground arith in rw (small, two_operands s) refl

mul-run :
    (a b : ℕ) (s : List ℕ) → run (op Opcode.mul ∷ []) (a ∷ b ∷ s) ≡ some (a * b % word_mod ∷ s)
unfolding run step compute arguments instruction_info
mul-run a b s = rw (two_operands s) refl

add-run :
    (a b : ℕ) (s : List ℕ) → run (op Opcode.add ∷ []) (a ∷ b ∷ s) ≡ some ((a + b) % word_mod ∷ s)
unfolding run step compute arguments instruction_info
add-run a b s = rw (two_operands s) refl

sub-run :
    (a b : ℕ) (s : List ℕ)
    → run (op Opcode.sub ∷ []) (a ∷ b ∷ s) ≡ some ((a + word_mod - b) % word_mod ∷ s)
unfolding run step compute arguments instruction_info
sub-run a b s = rw (two_operands s) refl

plain_power : (bits : ℕ) → all_plain (push_item bits ∷ push_item 2 ∷ op Opcode.exp ∷ []) ≡ true
unfolding all_plain
plain_power bits = refl

plain_nil : all_plain [] ≡ true
unfolding all_plain
plain_nil = refl

plain_add : all_plain (op Opcode.add ∷ []) ≡ true
unfolding all_plain
plain_add = refl

plain_sub : all_plain (op Opcode.sub ∷ []) ≡ true
unfolding all_plain
plain_sub = refl

run-nil : (s : List ℕ) → run [] s ≡ some s
unfolding run
run-nil s = refl

plain_mul : all_plain (op Opcode.mul ∷ []) ≡ true
unfolding all_plain
plain_mul = refl

product-Computes :
    (bits upper : ℕ) (high : List AssemblyItem)
    → bits < 256
    → Operand (upper == 1) high upper
    → Computes (product bits upper high) (upper * 2 ^ bits % word_mod)
product-Computes bits upper high h c = by_upper (upper == 1) (==_iff upper 1).0 c
  where
    three : List AssemblyItem
    three = push_item bits ∷ push_item 2 ∷ op Opcode.exp ∷ []

    by_upper :
        (b : Bool)
        → (b ≡ true → upper ≡ 1)
        → Operand b high upper
        → Computes
            (three ++ (if b then [] else high ++ op Opcode.mul ∷ []))
            (upper * 2 ^ bits % word_mod)
    by_upper true one c' = record {
      runs = λ s.
          power-run bits s h
          ∙ rw (one refl) (ap (λ (t : ℕ). some (t % word_mod ∷ s)) (omega arith));
      plain = plain_power bits;
    }
    by_upper false one c' = record {
      runs = λ s. append-run three (high ++ op Opcode.mul ∷ []) s _ _ (power-run bits s h) (
          append-run high _ _ _ _ (c'.runs _) (
            mul-run upper _ s
            ∙ ap (λ (t : ℕ). some (t ∷ s)) (mul-mod-mod word_mod upper (2 ^ bits))));
      plain =
          plain-append three (high ++ op Opcode.mul ∷ []) (plain_power bits)
            (plain-append high (op Opcode.mul ∷ []) c'.plain plain_mul);
    }

-- The last instruction puts the lower part in.
pub composed-Computes :
    (bits value lower upper : ℕ) (negative : Bool) (low high : List AssemblyItem)
    → bits < 256
    → value < word_mod
    → lower < word_mod
    → Operand (lower == 0) low lower
    → Operand (upper == 1) high upper
    → (if negative then value + lower ≡ upper * 2 ^ bits else value ≡ upper * 2 ^ bits + lower)
    → Computes (composed bits negative lower upper low high) value
composed-Computes bits value lower upper negative low high b v l c d e =
    by_lower (lower == 0) (==_iff lower 0).0 c negative e
  where
    prod : List AssemblyItem
    prod = product bits upper high

    multiplied : Computes prod (upper * 2 ^ bits % word_mod)
    multiplied = product-Computes bits upper high b d

    by_lower :
        (k : Bool)
        → (k ≡ true → lower ≡ 0)
        → Operand k low lower
        → (n : Bool)
        → (if n then value + lower ≡ upper * 2 ^ bits else value ≡ upper * 2 ^ bits + lower)
        → Computes
            (low
              ++ (prod
                  ++ (if k then [] else (if n then op Opcode.sub ∷ [] else op Opcode.add ∷ []))))
            value
    by_lower true z c' n e' =
        let whole : upper * 2 ^ bits % word_mod ≡ value = let o = z refl in ground arith in
        subst (λ l. Computes (l ++ (prod ++ [])) value) (sym c')
          (record {
            runs = λ s.
                append-run prod [] s _ _ (multiplied.runs s)
                  (run-nil _ ∙ ap (λ (t : ℕ). some (t ∷ s)) whole);
            plain = plain-append prod [] multiplied.plain plain_nil;
          })
    by_lower false z c' true e' =
        let whole : (upper * 2 ^ bits % word_mod + word_mod - lower) % word_mod ≡ value =
          omega arith in
        record {
          runs = λ s. append-run low _ s _ _ (c'.runs s) (
              append-run prod (op Opcode.sub ∷ []) _ _ _ (multiplied.runs _)
                (sub-run _ lower s ∙ ap (λ (t : ℕ). some (t ∷ s)) whole));
          plain = plain-append low _ c'.plain (plain-append prod _ multiplied.plain plain_sub);
        }
    by_lower false z c' false e' =
        let whole : (upper * 2 ^ bits % word_mod + lower) % word_mod ≡ value = omega arith in
        record {
          runs = λ s. append-run low _ s _ _ (c'.runs s) (
              append-run prod (op Opcode.add ∷ []) _ _ _ (multiplied.runs _)
                (add-run _ lower s ∙ ap (λ (t : ℕ). some (t ∷ s)) whole));
          plain = plain-append low _ c'.plain (plain-append prod _ multiplied.plain plain_add);
        }
