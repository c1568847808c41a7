-- ===== src/Examples/Guards.antt =====
-- Concrete groups before the guard of the batched adapters.
use whooshd.Base.{ℕ, ◌+◌, ◌≡◌, true, false, Option, some, List, [], ◌∷◌}
use whooshd.Guarded.{GroupRequest, Guard, run_guarded_adapter_batch}
use whooshd.Guarded.Groups.{IsSettled, run_guarded_adapter_batch-IsSettled}

abbrev asked : ℕ → GroupRequest
asked n = record {
  stream = false;
  tools = false;
  tool_choice = false;
  max_tokens = some n;
  model = some "local";
}

abbrev pair : List GroupRequest
pair = asked 64 ∷ asked 128 ∷ []

abbrev guard_rail : Guard
guard_rail = record {
  global_enabled = true;
  mlx_enabled = true;
  min_group = 2;
  max_group = 2;
  max_tokens = 128;
}

-- An adapter that counts its calls and answers each request with the count of calls before.
abbrev counting : List GroupRequest → ℕ → ℕ × Option (List ℕ)
counting rs n = (n + 1, some (n ∷ n ∷ []))

run_guarded_adapter_batch-IsSettled_example :
    ((run_guarded_adapter_batch (some counting) pair 7).0 ≡ 8)
    × IsSettled pair (some (7 ∷ 7 ∷ [])) (run_guarded_adapter_batch (some counting) pair 7).1
run_guarded_adapter_batch-IsSettled_example =
    run_guarded_adapter_batch-IsSettled (some counting) pair 7
