-- ===== src/Providers.antt =====
-- providers/registry.py of the inference service. A provider is known here by its name; what it
-- answers is an input of the code that calls it.
pub mod Laws
use agenyx.Base.{
  Bool, true, false, Option, none, some, String, List, [], ◌∷◌, Dict, lookup, insert, contains,
  string_eq, Error, value_error, key_error, Result, ok, raise, Action, raise_if, modify, ◌>>=◌,
  ◌>>◌,
}

pub record Provider : Type 0 where
  pub name : String

abbrev pub ProviderRegistry : Type 0
ProviderRegistry = Dict String Provider

unfoldable pub register : Provider → Action ProviderRegistry (Unit {0})
register p = do λ r. raise_if (contains p.name r) value_error r; modify (insert p.name p)

unfoldable pub get : String → ProviderRegistry → Result Provider
get name r = elim (lookup name r) [ none ↦ raise key_error | some p ↦ ok p ]

-- `health`, where `ask` is what awaiting `provider.health()` gives, or nothing when it raises
unfoldable pub health : (Provider → Option Bool) → ProviderRegistry → Dict String Bool
health ask [] = []
health ask ((name, p) ∷ r) =
    (name, elim (ask p) [ none ↦ false | some answer ↦ answer ]) ∷ health ask r
