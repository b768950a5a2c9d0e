-- ===== src/Tests/Programs.antt =====
-- Tests of expressions, on natural numbers and regular expressions that match one text, and of the
-- execution of blocks.
use text.Mathlib.Text.{◌==◌}
use jayvee.Base.{
  List, ℕ, ◌+◌, ◌-◌, ◌*◌, ◌≡◌, refl, Bool, true, false, none, some, [], ◌∷◌, ltb, leb, inl, inr,
  arith, String, ok, err, throws,
}
use jayvee.Expressions.{
  gives, boolean, number, string, regex, Expression, literal, binary, short_circuit, and_operator,
  addition_operator, less_than_operator, minus_operator, exhaustive, lazy, Runtime,
  EvaluationContext,
}
use jayvee.Expressions.Evaluate.{evaluate_expression, binary_step, short_circuit_step}
use jayvee.Expressions.Operators.{evaluate_unary, evaluate_binary, evaluate_replace}
use jayvee.Expressions.Strategies.{evaluate_expression-lazy}
use jayvee.Expressions.Types.{text_type, integer_type, regex_type, has_shape, is_convertible_to}
use jayvee.Expressions.Types.Computers.{
  compute_unary_type, compute_binary_type, compute_replace_type,
}
use jayvee.Expressions.Types.Shapes.{IsSound}
use jayvee.Expressions.Types.Binary.{evaluate_replace-IsSound}
use jayvee.Expressions.Types.Numbers.{
  HasWholeArithmetic, IsTyped, evaluate_unary-IsTyped, evaluate_binary-IsTyped,
}
use jayvee.Blocks.{
  unknown_error, Block, built_in, composite, Blocks, no_blocks, block, execute_blocks, execute_each,
  continue_blocks, input_value,
}
use jayvee.Pipelines.{
  Pipe, turns, start, turn, get_starting_blocks, without_duplicates, get_starting_block_pipes, keep,
  visit_children, get_child_blocks, get_outgoing_pipes, all_visited, get_ingoing_pipes, visit_edges,
  remove_edges,
}
use jayvee.Pipelines.Edges.{Has}
use jayvee.Pipelines.Complete.{turns_complete}
use jayvee.Pipelines.Order.{IsOrdered, turns-IsOrdered}
use jayvee.Blocks.Stack.{execute_each-Left, execute_each-composite, Left, IsOneOf, IsPlain}

abbrev pub naturals : Runtime ℕ String
naturals = record {
  zero = 0;
  one = 1;
  plus = λ a b. a + b;
  minus = λ a b. a - b;
  times = λ a b. a * b;
  divided = λ a b. a;
  remainder = λ a b. a;
  power = λ a b. a;
  negated = λ a. a;
  square_root = λ a. a;
  floor = λ a. a;
  ceil = λ a. a;
  round = λ a. a;
  is_finite = λ a. true;
  less = ltb;
  less_or_equal = leb;
  same_number = λ a b. leb a b;
  includes_number = λ a b. leb a b;
  same_object = λ v w. false;
  lower_case = λ s. s;
  upper_case = λ s. s;
  string_length = λ s. 0;
  test = λ r s. r == s;
  replaced = λ s r t. t;
  parse_decimal = λ s. none;
  truncated = λ a. a;
  parse_boolean = λ s. none;
}

abbrev pub empty_context : EvaluationContext ℕ String
empty_context = record { variable_values = []; value_keyword_value = none }

-- `1 + 2 < 4 and 1 < 2`
abbrev comparison : Expression ℕ String
comparison =
    short_circuit and_operator
      (binary less_than_operator
        (binary addition_operator (literal (number 1)) (literal (number 2))) (literal (number 4)))
      (binary less_than_operator (literal (number 1)) (literal (number 2)))

comparison_holds :
    evaluate_expression naturals exhaustive empty_context comparison ≡ gives (some (boolean true))
unfolding evaluate_expression binary_step evaluate_binary short_circuit_step
comparison_holds = refl

evaluate_expression-lazy_example :
    evaluate_expression naturals lazy empty_context comparison ≡ gives (some (boolean true))
evaluate_expression-lazy_example =
    evaluate_expression-lazy naturals empty_context comparison (boolean true) comparison_holds

-- Every number of these tests is an integer.
abbrev any_integer : ℕ → Bool
any_integer n = true

naturals-HasWholeArithmetic : HasWholeArithmetic naturals any_integer
naturals-HasWholeArithmetic = record {
  plus = λ n m l k. refl;
  minus = λ n m l k. refl;
  times = λ n m l k. refl;
  negated = λ n l. refl;
  floor = λ n. refl;
  ceil = λ n. refl;
  round = λ n. refl;
  truncated = λ n. refl;
}

evaluate_unary-IsTyped_example :
    IsTyped naturals any_integer integer_type (evaluate_unary naturals minus_operator (number 3))
unfolding compute_unary_type has_shape is_convertible_to
evaluate_unary-IsTyped_example =
    evaluate_unary-IsTyped naturals any_integer naturals-HasWholeArithmetic minus_operator
      integer_type integer_type (number 3) refl refl

evaluate_binary-IsTyped_example :
    IsTyped naturals any_integer integer_type
      (evaluate_binary naturals addition_operator (number 2) (number 3))
unfolding compute_binary_type has_shape is_convertible_to
evaluate_binary-IsTyped_example =
    evaluate_binary-IsTyped naturals any_integer naturals-HasWholeArithmetic addition_operator
      integer_type integer_type integer_type (number 2) (number 3) refl refl refl

evaluate_replace-IsSound_example :
    IsSound text_type (evaluate_replace naturals (string "a") (regex "a") (string "b"))
unfolding compute_replace_type has_shape is_convertible_to
evaluate_replace-IsSound_example =
    evaluate_replace-IsSound naturals text_type regex_type text_type text_type (string "a")
      (regex "a") (string "b") refl refl refl refl

abbrev is_zero : ℕ → Bool
is_zero n = leb n 0

abbrev doubling : Block ℕ
doubling = built_in 1 (some (λ n stack. (ok (some (n + n)), stack)))

-- It throws inside of node 9.
abbrev failing : Block ℕ
failing = built_in 2 (some (λ n stack. (throws, 9 ∷ stack)))

abbrev two_blocks : Blocks ℕ
two_blocks = block none doubling (block (some 1) failing no_blocks)

abbrev IsNine : ℕ → Type 0
IsNine n = n ≡ 9

two_blocks-IsPlain : IsPlain 0 is_zero IsNine two_blocks
two_blocks-IsPlain = (λ n stack. refl, (λ n stack. (9 ∷ [], refl, (refl, tt)), tt))

seven_outside : IsNine 7 → ⊥
seven_outside e = omega arith

seven_apart : IsOneOf 0 is_zero 7 two_blocks → ⊥
seven_apart (inl e) = omega arith
seven_apart (inr (inl e)) = omega arith
seven_apart (inr (inr none_left)) = none_left

two_blocks_fail : (execute_blocks 0 is_zero two_blocks (some 0) (7 ∷ [])).0 ≡ err unknown_error
unfolding execute_blocks execute_each continue_blocks
two_blocks_fail = refl

execute_each-Left_example :
    Left 0 is_zero IsNine two_blocks
      (execute_each 0 is_zero two_blocks [] true (some 5) (7 ∷ []))
      (7 ∷ [])
execute_each-Left_example =
    execute_each-Left 0 is_zero IsNine two_blocks [] true (some 5) (7 ∷ []) two_blocks-IsPlain

execute_each-composite_example :
    (execute_each 0 is_zero
      (block none (composite 7 two_blocks (some 2)) no_blocks)
      []
      true
      none
      []).0
    ≡ throws
unfolding execute_blocks input_value
execute_each-composite_example =
    execute_each-composite 0 is_zero IsNine none 7 two_blocks (some 2) no_blocks [] true none []
      unknown_error two_blocks-IsPlain seven_outside seven_apart two_blocks_fail

abbrev pipe : ℕ → ℕ → Pipe
pipe a b = record { from = a; to = b }

abbrev diamond : List Pipe
diamond = pipe 1 2 ∷ pipe 1 3 ∷ pipe 2 4 ∷ pipe 3 4 ∷ []

diamond_sorted : (turns 4 diamond (start diamond)).sorted_nodes ≡ 1 ∷ 3 ∷ 2 ∷ 4 ∷ []
unfolding turns start turn get_starting_blocks without_duplicates get_starting_block_pipes keep
    visit_children get_child_blocks get_outgoing_pipes all_visited get_ingoing_pipes visit_edges
    remove_edges
diamond_sorted = refl

turns-IsOrdered_example : IsOrdered diamond [] ((turns 4 diamond (start diamond)).sorted_nodes)
turns-IsOrdered_example = turns-IsOrdered diamond 4

diamond_ended : (turns 4 diamond (start diamond)).current_nodes ≡ []
unfolding turns start turn get_starting_blocks without_duplicates get_starting_block_pipes keep
    visit_children get_child_blocks get_outgoing_pipes all_visited get_ingoing_pipes visit_edges
    remove_edges
diamond_ended = refl

diamond_visited : (turns 4 diamond (start diamond)).unvisited_edges ≡ []
unfolding turns start turn get_starting_blocks without_duplicates get_starting_block_pipes keep
    visit_children get_child_blocks get_outgoing_pipes all_visited get_ingoing_pipes visit_edges
    remove_edges
diamond_visited = refl

turns_complete_example :
    Has 2 ((turns 4 diamond (start diamond)).sorted_nodes)
    × Has 4 ((turns 4 diamond (start diamond)).sorted_nodes)
turns_complete_example =
    turns_complete diamond 4 diamond_ended diamond_visited (pipe 2 4) (inr (inr (inl refl)))
