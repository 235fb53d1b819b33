-- ===== src/Module.antt =====
-- internal/module/inspect.go: what a module declares, as far as the graph checks read it. The
-- maps `Variables` and `Outputs` are an association list and a list of names.
use terragraph.Prelude.{Bool, true, false, Str, List, contains, lookup, none, some}

pub record Variable : Type 0 where
  pub sensitive : Bool
  pub required : Bool

pub record Schema : Type 0 where
  pub variables : List (Str × Variable)
  pub outputs : List Str

-- (*Schema).HasOutput
abbrev pub has_output : Schema → Str → Bool
has_output s name = contains name s.outputs

-- (*Schema).HasVariable
abbrev pub has_variable : Schema → Str → Bool
has_variable s name = elim (lookup name s.variables) [ none ↦ false | some v ↦ true ]
