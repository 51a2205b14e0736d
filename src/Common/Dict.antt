-- ===== src/Common/Dict.antt =====
-- Go's maps whose keys are texts: a list of entries, of which the first with a key counts.
use Prim.Native.String.{String}
use text.Mathlib.Text.{◌==◌ as str_eq}
use text.Mathlib.TextEquality.{eq_iff}
use mathlib.Core.Path.{◌≡◌, refl}
use mathlib.Core.Option.{Option, none, some}
use mathlib.Core.List.{List, [], ◌∷◌}
use native.Mathlib.Omega.{arith}
use hisnos_secure_workstatio.Common.Tests.{if◌then◌else◌}

abbrev pub Dict {ℓ} : Type ℓ → Type ℓ
Dict V = List (String × V)

module _ {ℓ} {V : Type ℓ} where
  -- `m[key]`
  pub value_at : String → Dict V → Option V
  value_at key [] = none
  value_at key ((first, value) ∷ others) =
      let later = value_at key others in if str_eq first key then some value else later

  -- `m[key] = new`
  pub set_at : String → V → Dict V → Dict V
  set_at key new [] = (key, new) ∷ []
  set_at key new ((first, value) ∷ others) =
      let later = set_at key new others in
      if str_eq first key then (key, new) ∷ others else (first, value) ∷ later

  -- `delete(m, key)`
  pub delete_at : String → Dict V → Dict V
  delete_at key [] = []
  delete_at key ((first, value) ∷ others) =
      let later = delete_at key others in if str_eq first key then later else (first, value) ∷ later

  pub value_at-nil : (key : String) → value_at key [] ≡ none
  unfolding value_at
  value_at-nil key = refl

  -- Setting a key leaves the values at all others.
  pub value_at-set_at :
      (changed key : String) (new : V) (entries : Dict V)
      → value_at key (set_at changed new entries)
        ≡ (if str_eq changed key then some new else value_at key entries)
  unfolding value_at set_at
  value_at-set_at changed key new [] = refl
  value_at-set_at changed key new ((first, value) ∷ others) = ground (
    value_at-set_at changed key new others,
    eq_iff first changed,
    eq_iff first key,
    eq_iff changed key,
    arith,
  )

  -- Deleting a key leaves the values at all others.
  pub value_at-delete_at :
      (gone key : String) (entries : Dict V)
      → value_at key (delete_at gone entries)
        ≡ (if str_eq gone key then none else value_at key entries)
  unfolding value_at delete_at
  value_at-delete_at gone key [] = ground arith
  value_at-delete_at gone key ((first, value) ∷ others) = ground (
    value_at-delete_at gone key others,
    eq_iff first gone,
    eq_iff first key,
    eq_iff gone key,
    arith,
  )
