-- ===== src/Blocks.antt =====
-- libs/execution/src/lib/blocks: block-execution-util.ts and composite-block-executor.ts, with the
-- stack of execution-context.ts. A block of a built-in type is a function of its input and the stack,
-- on which it can enter and leave nodes; it has none where no executor is registered for its type. A
-- composite block holds the blocks of its pipeline in topological order, each with its first parent. Blocks are
-- told apart by a number. The evaluation of a composite block's properties is left out.
pub mod Stack
use jayvee.Base.{
  ℕ, Bool, true, false, not, ◌&&◌, ◌||◌, Option, none, some, List, [], ◌∷◌, ◌++◌, ◌==◌,
  if◌then◌else◌, Result, ok, err, throws,
}

-- The errors that are returned: that of a block, or what `executeBlock` makes of a thrown one.
pub data BlockError : Type 0 where
  block_failed : BlockError
  unknown_error : BlockError

-- The nodes that were entered, the latest first
abbrev pub Stack : Type 0
Stack = List ℕ

-- `execute` of a block executor, on the stack of the context
abbrev pub Executor : Type 0 → Type 0
Executor V = V → Stack → Result BlockError (Option V) × Stack

mutual
  pub data Block (V : Type 0) : Type 0 where
    built_in : ℕ → Option (Executor V) → Block V
    composite : ℕ → Blocks V → Option ℕ → Block V

  pub data Blocks (V : Type 0) : Type 0 where
    no_blocks : Blocks V
    block : Option ℕ → Block V → Blocks V → Blocks V

abbrev pub enter_node : ℕ → Stack → Stack
enter_node node stack = node ∷ stack

-- `exitNode`: whether the assertion on the popped node holds, and the stack after the pop
abbrev pub exit_node : ℕ → Stack → Bool × Stack
exit_node node [] = (false, [])
exit_node node (popped ∷ stack) = (popped == node, stack)

abbrev pub block_name : {V : Type 0} → Block V → ℕ
block_name (built_in name f) = name
block_name (composite name bs last) = name

module _ {V : Type 0} (none_value : V) (is_none_value : V → Bool) where
  -- `executionOrder.find(...)?.value ?? NONE`, in the items that were executed before
  abbrev pub value_of : ℕ → List (ℕ × Option V) → V
  value_of parent [] = none_value
  value_of parent ((name, none) ∷ items) =
      if name == parent then none_value else value_of parent items
  value_of parent ((name, some v) ∷ items) = if name == parent then v else value_of parent items

  -- `parentData[0]?.value ?? NONE`
  abbrev pub parent_value : Option ℕ → List (ℕ × Option V) → V
  parent_value none items = none_value
  parent_value (some parent) items = value_of parent items

  -- The input of a block, with the external input for the first one
  unfoldable pub input_value : Option ℕ → List (ℕ × Option V) → Bool → Option V → V
  input_value parent items is_first none = parent_value parent items
  input_value parent items is_first (some initial) =
      if is_first && is_none_value (parent_value parent items)
      then initial
      else parent_value parent items

  -- The end of `doExecute` of a composite block: the value of the last block of its pipeline
  abbrev pub last_value : Option ℕ → List (ℕ × Option V) → Result BlockError (Option V)
  last_value last [] = throws
  last_value none items = throws
  last_value (some last) ((name, v) ∷ items) =
      if name == last then ok v else last_value (some last) items

  -- `doExecute` of a composite block, behind `executeBlocks`: an error is logged, and no value is
  -- given.
  unfoldable pub composite_result :
      Option ℕ → Result BlockError (List (ℕ × Option V)) → Result BlockError (Option V)
  composite_result last (ok items) = last_value last items
  composite_result last (err e) = ok none
  composite_result last throws = throws

  -- The `try` of `executeBlock`
  abbrev pub caught : Result BlockError (Option V) → Result BlockError (Option V)
  caught (ok v) = ok v
  caught (err e) = err e
  caught throws = err unknown_error

  -- The end of the loop's body: the assertion of `exitNode`, and the blocks after this one
  abbrev pub after_exit :
      Bool × Stack
      → (Stack → Result BlockError (List (ℕ × Option V)) × Stack)
      → Result BlockError (List (ℕ × Option V)) × Stack
  after_exit (true, stack) others = others stack
  after_exit (false, stack) others = (throws, stack)

  -- The loop's body behind `executeBlock`
  unfoldable pub continue_blocks :
      ℕ
      → Result BlockError (Option V) × Stack
      → (Option V → Stack → Result BlockError (List (ℕ × Option V)) × Stack)
      → Result BlockError (List (ℕ × Option V)) × Stack
  continue_blocks name (ok v, stack) others = after_exit (exit_node name stack) (others v)
  continue_blocks name (err e, stack) others = (err e, stack)
  continue_blocks name (throws, stack) others = (throws, stack)

  unfoldable mutual
    -- `executeBlock`, with the early return for an input that is null and the assertion of
    -- `createBlockExecutor`, which is outside of the `try`
    pub execute_block : Block V → Option V → Stack → Result BlockError (Option V) × Stack
    execute_block (built_in name f) none stack = (ok none, stack)
    execute_block (built_in name none) (some input) stack = (throws, stack)
    execute_block (built_in name (some f)) (some input) stack =
        let result = f input stack in (caught (result.0), result.1)
    execute_block (composite name bs last) none stack = (ok none, stack)
    execute_block (composite name bs last) (some input) stack =
        let executed = execute_each bs [] true (some input) stack in
        (caught (composite_result last (executed.0)), executed.1)

    -- The loop of `executeBlocks`
    pub execute_each :
        Blocks V
        → List (ℕ × Option V)
        → Bool
        → Option V
        → Stack
        → Result BlockError (List (ℕ × Option V)) × Stack
    execute_each no_blocks items is_first initial stack = (ok items, stack)
    execute_each (block parent b bs) items is_first initial stack =
        continue_blocks (block_name b)
          (execute_block b (some (input_value parent items is_first initial))
            (enter_node (block_name b) stack))
          (λ v stack'. execute_each bs (items ++ (block_name b, v) ∷ []) false initial stack')

  -- `executeBlocks`, on the blocks in topological order
  unfoldable pub execute_blocks :
      Blocks V → Option V → Stack → Result BlockError (List (ℕ × Option V)) × Stack
  execute_blocks bs initial stack = execute_each bs [] true initial stack
