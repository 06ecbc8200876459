-- ===== src/Mission/Budget.antt =====
-- src/mission/runtime.ts: BudgetCounters, assertCounters and addCounters. A caller's counters are
-- JavaScript numbers; those of a snapshot are the natural numbers that assertCounters has checked.
use odin_agent.Prelude.{
  ℕ, ◌+◌, ◌≤◌, ◌≡◌, Bool, ◌||◌, not, arith, ltb, Result, ok, ◌>>=◌, ◌>>◌, guard, or_throw,
}
use odin_agent.Prelude.Number.{Number, safe_nat, max_safe}
use odin_agent.Mission.State.{
  MissionError, bad_counters, budget_exceeded, input_tokens, output_tokens, cost_micros, tool_calls,
  attempts,
}

pub record Counters (A : Type 0) : Type 0 where
  pub input : A
  pub output : A
  pub cost : A
  pub tools : A
  pub tries : A

abbrev pub BudgetCounters : Type 0
BudgetCounters = Counters Number

abbrev pub zero_counters : Counters ℕ
zero_counters = record { input = 0; output = 0; cost = 0; tools = 0; tries = 0 }

-- `assertCounters`, in the order of `counterKeys`.
unfoldable pub assert_counters : BudgetCounters → Result MissionError (Counters ℕ)
assert_counters value = do
  input ← or_throw (safe_nat value.input) (bad_counters input_tokens)
  output ← or_throw (safe_nat value.output) (bad_counters output_tokens)
  cost ← or_throw (safe_nat value.cost) (bad_counters cost_micros)
  tools ← or_throw (safe_nat value.tools) (bad_counters tool_calls)
  tries ← or_throw (safe_nat value.tries) (bad_counters attempts)
  ok (record { input = input; output = output; cost = cost; tools = tools; tries = tries })

-- `!Number.isSafeInteger(next) || next > limit` for a sum of two safe integers.
abbrev pub exceeds : ℕ → ℕ → Bool
exceeds next limit = ltb max_safe next || ltb limit next

-- The loop of budgetDebitEvent over the dimensions.
unfoldable pub check_budget : Counters ℕ → Counters ℕ → Counters ℕ → Result MissionError (Unit {0})
check_budget usage limits delta =
    guard (not (exceeds (usage.input + delta.input) limits.input)) (budget_exceeded input_tokens)
    >> (guard (not (exceeds (usage.output + delta.output) limits.output))
          (budget_exceeded output_tokens)
        >> (guard (not (exceeds (usage.cost + delta.cost) limits.cost))
              (budget_exceeded cost_micros)
            >> (guard (not (exceeds (usage.tools + delta.tools) limits.tools))
                  (budget_exceeded tool_calls)
                >> guard (not (exceeds (usage.tries + delta.tries) limits.tries))
                    (budget_exceeded attempts))))

unfoldable pub add_counters : Counters ℕ → Counters ℕ → Counters ℕ
add_counters left right = record {
  input = left.input + right.input;
  output = left.output + right.output;
  cost = left.cost + right.cost;
  tools = left.tools + right.tools;
  tries = left.tries + right.tries;
}

-- Every dimension of the left is at most that of the right.
pub record Within (usage limits : Counters ℕ) : Type 0 where
  pub input : usage.input ≤ limits.input
  pub output : usage.output ≤ limits.output
  pub cost : usage.cost ≤ limits.cost
  pub tools : usage.tools ≤ limits.tools
  pub tries : usage.tries ≤ limits.tries

-- A debit that the check admits leaves the usage within its limits.
pub check_budget-Within :
    (usage limits delta : Counters ℕ) {u : Unit {0}}
    → check_budget usage limits delta ≡ ok u
    → Within (add_counters usage delta) limits
unfolding check_budget add_counters
check_budget-Within usage limits delta h = ground arith

-- A debit that would stay within limits which are safe integers is admitted.
check_budget_complete :
    (usage limits delta : Counters ℕ)
    → Within limits (record {
      input = max_safe;
      output = max_safe;
      cost = max_safe;
      tools = max_safe;
      tries = max_safe;
    })
    → Within (add_counters usage delta) limits
    → check_budget usage limits delta ≡ ok tt
unfolding check_budget add_counters
check_budget_complete usage limits delta safe w = ground arith
