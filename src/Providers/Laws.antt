-- ===== src/Providers/Laws.antt =====
-- What the registry of providers keeps.
use agenyx.Base.{
  ◌≡◌, refl, ◌≢◌, Bool, false, Option, none, some, String, [], ◌∷◌, lookup, string_eq, arith, ok,
  raise, value_error, lookup-insert, ==_iff, ◌==◌, if◌then◌else◌,
}
use agenyx.Providers.{Provider, ProviderRegistry, register, get, health}

-- Every provider stands under its own name.
abbrev pub IsNamed : ProviderRegistry → Type 0
IsNamed r = (name : String) (p : Provider) → get name r ≡ ok p → p.name ≡ name

pub register-IsNamed : (p : Provider) (r : ProviderRegistry) → IsNamed r → IsNamed (register p r).1
unfolding register get
register-IsNamed p r v name q h =
    ground (arith, v name q, lookup-insert name p.name p r, ==_iff p.name name)

-- A registration is accepted exactly for a new name; then the provider is found under it, and
-- every other name as before. A second one raises ValueError and changes nothing.
pub register_lem :
    (p : Provider) (r : ProviderRegistry)
    → (lookup p.name r ≡ none
        → ((register p r).0 ≡ ok tt)
          × ((name : String)
              → get name (register p r).1 ≡ (if p.name == name then ok p else get name r)))
      × (lookup p.name r ≢ none → register p r ≡ (raise value_error, r))
unfolding register get
register_lem p r =
    (λ h. (ground arith, λ name. ground (arith, lookup-insert name p.name p r)), λ h. ground arith)

-- A provider whose health check raises counts as unhealthy, and the others are still asked.
pub lookup-health :
    (ask : Provider → Option Bool) (name : String) (r : ProviderRegistry)
    → lookup name (health ask r) ≡ (elim (lookup name r) [
      | none ↦ none
      | some p ↦ some (elim (ask p) [ none ↦ false | some answer ↦ answer ])
    ])
unfolding lookup health
lookup-health ask name [] = refl
lookup-health ask name ((j, p) ∷ r) = ground (arith, lookup-health ask name r)
