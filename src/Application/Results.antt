-- ===== src/Application/Results.antt =====
-- application/results.py
use lantern_task_manager.Base.{String, Bool, true, false, Option, none, some, List, [], ◌∷◌, ◌++◌}
use lantern_task_manager.Domain.Models.{TaskRecord}

pub record UseCaseResult (A : Type 0) : Type 0 where
  pub ok : Bool
  pub code : String
  pub message : String
  pub value : Option A
  pub warnings : List String

module _ {A : Type 0} where
  abbrev pub success : A → String → String → UseCaseResult A
  success value code message = record {
    ok = true;
    code = code;
    message = message;
    value = some value;
    warnings = [];
  }

  abbrev pub failure : String → String → UseCaseResult A
  failure code message = record {
    ok = false;
    code = code;
    message = message;
    value = none;
    warnings = [];
  }

  abbrev pub with_warning : String → UseCaseResult A → UseCaseResult A
  with_warning warning result = record result { warnings = result.warnings ++ warning ∷ [] }

-- How a `with session_scope()` block is left: by a `return` in it, or at its end.
pub data Progress (A : Type 0) : Type 0 where
  returned : UseCaseResult TaskRecord → Progress A
  reached : A → Progress A
