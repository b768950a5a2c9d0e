-- ===== src/Blocks/Stack.antt =====
-- The stack of the execution context under `executeBlocks`.
use jayvee.Base.{
  ℕ, ◌≡◌, refl, sym, Bool, none, All, true, false, Option, some, List, [], ◌∷◌, ◌++◌, ◌==◌, ==_iff,
  subst, Result, ok, err, throws, Bool-cases, inl, inr, ◌⊎◌,
}
use jayvee.Blocks.{
  BlockError, Executor, Block, built_in, composite, Blocks, no_blocks, block, Stack, block_name,
  input_value, exit_node, after_exit, continue_blocks, execute_block, execute_each, execute_blocks,
  composite_result, caught,
}

module _ {V : Type 0} (none_value : V) (is_none_value : V → Bool) where
  -- What a block's executor does to the stack: it leaves it as it was when it returns, and it can leave
  -- nodes of its own, which `IsInner` tells, on top of it when it throws.
  abbrev pub Returns : (ℕ → Type 0) → Result BlockError (Option V) × Stack → Stack → Type 0
  Returns IsInner (ok v, after) before = after ≡ before
  Returns IsInner (err e, after) before = after ≡ before
  Returns IsInner (throws, after) before =
      (nodes : List ℕ) × (after ≡ nodes ++ before) × All IsInner nodes

  -- A list of blocks without a composite one, all of which have such an executor
  abbrev pub IsPlain : (ℕ → Type 0) → Blocks V → Type 0
  IsPlain IsInner no_blocks = Unit
  IsPlain IsInner (block parent (built_in name none) bs) = ⊥
  IsPlain IsInner (block parent (built_in name (some f)) bs) =
      ((input : V) (stack : Stack) → Returns IsInner (f input stack) stack) × IsPlain IsInner bs
  IsPlain IsInner (block parent (composite name inner last) bs) = ⊥

  -- One of the blocks has that node.
  abbrev pub IsOneOf : ℕ → Blocks V → Type 0
  IsOneOf n no_blocks = ⊥
  IsOneOf n (block parent b bs) = (n ≡ block_name b) ⊎ IsOneOf n bs

  -- What the stack is after a list of blocks was executed: as before if all succeeded; if one failed,
  -- that block is left on it, under the nodes that it left itself.
  abbrev pub Left :
      (ℕ → Type 0) → Blocks V → Result BlockError (List (ℕ × Option V)) × Stack → Stack → Type 0
  Left IsInner bs (ok items, after) before = after ≡ before
  Left IsInner bs (err e, after) before =
      (n : ℕ) × (nodes : List ℕ) × (after ≡ nodes ++ n ∷ before) × All IsInner nodes × IsOneOf n bs
  Left IsInner bs (throws, after) before = ⊥

  module _ (IsInner : ℕ → Type 0) where
    Left-block :
        (parent : Option ℕ) (b : Block V) (bs : Blocks V)
        (r : Result BlockError (List (ℕ × Option V)) × Stack) (stack : Stack)
        → Left IsInner bs r stack
        → Left IsInner (block parent b bs) r stack
    Left-block parent b bs (ok items, after) stack l = l
    Left-block parent b bs (err e, after) stack (n, nodes, same, inner, one) =
        (n, nodes, same, inner, inr one)
    Left-block parent b bs (throws, after) stack l = l

    plain_step :
        (parent : Option ℕ) (name : ℕ) (f : Executor V) (bs : Blocks V)
        (r : Result BlockError (Option V) × Stack)
        (others : Option V → Stack → Result BlockError (List (ℕ × Option V)) × Stack)
        (stack : Stack)
        → Returns IsInner r (name ∷ stack)
        → ((v : Option V) → Left IsInner bs (others v stack) stack)
        → Left IsInner
            (block parent (built_in name (some f)) bs)
            (continue_blocks none_value is_none_value name
              (caught none_value is_none_value (r.0), r.1)
              others)
            stack
    unfolding continue_blocks
    plain_step parent name f bs (ok v, after) others stack returned law =
        rw (returned, (==_iff name name).1 refl)
          (Left-block parent (built_in name (some f)) bs _ stack (law v))
    plain_step parent name f bs (err e, after) others stack returned law =
        (name, [], returned, tt, inl refl)
    plain_step parent name f bs (throws, after) others stack (nodes, same, inner) law =
        (name, nodes, same, inner, inl refl)

    -- On built-in blocks with executors that leave the stack as it was when they return, and with
    -- further nodes on top of it when they throw: `executeBlocks` never throws. It leaves the stack as it
    -- was when all blocks succeed. When it returns an error, the node of one of the blocks is left on
    -- the stack, under the nodes that the block left itself.
    pub execute_each-Left :
        (bs : Blocks V) (items : List (ℕ × Option V)) (is_first : Bool) (initial : Option V)
        (stack : Stack)
        → IsPlain IsInner bs
        → Left IsInner bs
            (execute_each none_value is_none_value bs items is_first initial stack)
            stack
    unfolding execute_each execute_block
    execute_each-Left no_blocks items is_first initial stack p = refl
    execute_each-Left (block parent (built_in name none) bs) items is_first initial stack p =
        elim p [ ]
    execute_each-Left (block parent (built_in name (some f)) bs) items is_first initial stack
          (q, p) =
        let input = input_value none_value is_none_value parent items is_first initial in
        plain_step parent name f bs (f input (name ∷ stack)) _ stack (q input (name ∷ stack))
          (λ v. execute_each-Left bs (items ++ (name, v) ∷ []) false initial stack p)
    execute_each-Left (block parent (composite name inner last) bs) items is_first initial stack p =
        elim p [ ]

    -- The latest node is not that of the composite block.
    other_exit :
        (name n : ℕ) (nodes : List ℕ) (stack : Stack)
        → (IsInner name → ⊥)
        → All IsInner nodes
        → (n ≡ name → ⊥)
        → (exit_node name (nodes ++ n ∷ stack)).0 ≡ false
    other_exit name n [] stack apart inner other = elim (Bool-cases (n == name)) [
      | inl equal ↦ elim (other ((==_iff n name).0 equal)) [ ]
      | inr differs ↦ differs
    ]
    other_exit name n (node ∷ nodes) stack apart (inside, inner) other =
        elim (Bool-cases (node == name)) [
          | inl equal ↦ elim (apart (subst IsInner ((==_iff node name).0 equal) inside)) [ ]
          | inr differs ↦ differs
        ]

    failed_exit :
        (r : Bool × Stack) (others : Stack → Result BlockError (List (ℕ × Option V)) × Stack)
        → r.0 ≡ false
        → (after_exit none_value is_none_value r others).0 ≡ throws
    failed_exit (true, stack) others e = cc
    failed_exit (false, stack) others e = refl

    not-Left :
        (name : ℕ) (inner : Blocks V) (last : Option ℕ) (e : BlockError)
        (r : Result BlockError (List (ℕ × Option V)) × Stack)
        (others : Option V → Stack → Result BlockError (List (ℕ × Option V)) × Stack)
        (stack : Stack)
        → (IsInner name → ⊥)
        → (IsOneOf name inner → ⊥)
        → r.0 ≡ err e
        → Left IsInner inner r (name ∷ stack)
        → (continue_blocks none_value is_none_value name
            (
              caught none_value is_none_value
                  (composite_result none_value is_none_value last (r.0)),
              r.1,
            )
            others).0
          ≡ throws
    unfolding continue_blocks composite_result
    not-Left name inner last e (ok items, after) others stack outer apart h l = cc
    not-Left name inner last e (throws, after) others stack outer apart h l = cc
    not-Left name inner last e (err e', after) others stack outer apart h
          (n, nodes, same, all, one) =
        failed_exit (exit_node name after) _ (
          subst (λ s. (exit_node name s).0 ≡ false) (sym same)
            (other_exit name n nodes (name ∷ stack) outer all
              (λ equal. apart (subst (λ k. IsOneOf k inner) equal one))))

    -- A composite block of built-in blocks other than itself, one of which fails: the enclosing
    -- `executeBlocks` throws, since a node of the failed block is still on top of the stack when the
    -- one of the composite block is left. The executors leave the stack as it was when they return,
    -- and when they throw they leave nodes on top of it that are not the composite block's.
    pub execute_each-composite :
        (parent : Option ℕ) (name : ℕ) (inner : Blocks V) (last : Option ℕ) (bs : Blocks V)
        (items : List (ℕ × Option V)) (is_first : Bool) (initial : Option V) (stack : Stack)
        (e : BlockError)
        → IsPlain IsInner inner
        → (IsInner name → ⊥)
        → (IsOneOf name inner → ⊥)
        → (execute_blocks none_value is_none_value inner
            (some (input_value none_value is_none_value parent items is_first initial))
            (name ∷ stack)).0
          ≡ err e
        → (execute_each none_value is_none_value
            (block parent (composite name inner last) bs)
            items
            is_first
            initial
            stack).0
          ≡ throws
    unfolding execute_each execute_block execute_blocks
    execute_each-composite parent name inner last bs items is_first initial stack e p outer apart
          h =
        not-Left name inner last e _ _ stack outer apart h (
          execute_each-Left inner [] true
            (some (input_value none_value is_none_value parent items is_first initial))
            (name ∷ stack) p)
