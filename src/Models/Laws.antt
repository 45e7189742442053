-- ===== src/Models/Laws.antt =====
-- The registry of models as a map: see models/registry.py.
use agenyx.Base.{
  ◌≡◌, ◌≢◌, refl, sym, Bool, true, false, Option, none, String, insert, erase, string_eq,
  lookup-insert, lookup-erase, ok, raise, key_error, is_empty, arith, if◌then◌else◌, ◌==◌, ==_refl,
  ==_iff, Bool-cases, inl, inr,
}
use agenyx.Models.{ModelDefinition, ModelRegistry, register, get, remove, or_key_error}

or_first : (b : Bool) (x y : Option ModelDefinition) → b ≡ false → (if b then x else y) ≡ y
or_first b x y h = rw h refl

different : (a b : String) → a ≢ b → a == b ≡ false
different a b h = elim (Bool-cases (a == b)) [ inl e ↦ elim (h ((==_iff a b).0 e)) [ ] | inr e ↦ e ]

module _ (m : ModelDefinition) (r r' : ModelRegistry) where
  register_writes : register m r ≡ (ok tt, r') → r' ≡ insert m.model_id m r
  unfolding register
  register_writes h = ground arith

  -- A model that was registered is found under its id, and no other id is found otherwise than before.
  pub get-register :
      (id : String)
      → register m r ≡ (ok tt, r')
      → is_empty m.model_id ≡ false
      → id ≢ m.model_id
      → (get m.model_id r' ≡ ok m) × (get id r' ≡ get id r)
  unfolding get
  get-register id h named other =
      let written = register_writes h in
      rw
        (
          written,
          lookup-insert m.model_id m.model_id m r,
          lookup-insert id m.model_id m r,
          ==_refl m.model_id,
          different m.model_id id (λ e. other (sym e)),
          named,
        )
        (refl, refl)

module _ (id : String) (r r' : ModelRegistry) where
  remove_erases : remove id r ≡ (ok tt, r') → r' ≡ erase id r
  unfolding remove
  remove_erases h = ground arith

  -- A model that was removed is not found, and no other id is found otherwise than before.
  pub get-remove :
      (j : String)
      → remove id r ≡ (ok tt, r')
      → j ≢ id
      → (get id r' ≡ raise key_error) × (get j r' ≡ get j r)
  unfolding get
  get-remove j h other =
      rw
        (
          remove_erases h,
          lookup-erase id id r,
          lookup-erase j id r,
          ==_refl id,
          different id j (λ e. other (sym e)),
        )
        (missing (is_empty id), refl)
    where
      missing : (b : Bool) → (if b then raise key_error else or_key_error none) ≡ raise key_error
      missing true = refl
      missing false = refl
