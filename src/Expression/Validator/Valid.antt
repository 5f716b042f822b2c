-- ===== src/Expression/Validator/Valid.antt =====
-- Which expressions the validator takes, as a whole.
use nope.Prelude.{◌≡◌, ◌≢◌, [], ◌⊎◌, text, All}
use nope.Spec.{obj}
use nope.Expression.{Schema}
use nope.Expression.Validator.{operations}
use nope.Expression.Validator.WellFormed.{IsOperation}

module _ {N : Type 0} where
  -- What the validator asks of an expression.
  pub record IsValid (schema : Schema N) : Type 0 where
    pub with_id : schema.id ≢ []
    pub with_name : schema.name ≢ []
    pub with_operations : schema.operations ≢ []
    pub combines :
        (schema.multiple_operations ≡ text "and") ⊎ (schema.multiple_operations ≡ text "or")
    pub well_formed : All (λ ms. IsOperation (obj 0 ms)) schema.operations
