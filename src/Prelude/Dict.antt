-- ===== src/Prelude/Dict.antt =====
-- Go maps with string keys, as association lists.
use Prim.Native.String.{String}
use text.Mathlib.Text.{◌==◌ as str_eq}
use text.Mathlib.TextEquality.{eq_iff}
use kapacitor.Prelude.Tests.{if◌then◌else◌}
use mathlib.Core.Path.{◌≡◌, refl}
use mathlib.Core.Option.{Option, none, some}
use mathlib.Core.List.{List, [], ◌∷◌}
use mathlib.Core.Logic.{◌≢◌}
use native.Mathlib.Omega.{arith}

abbrev pub Dict : Type 0 → Type 0
Dict V = List (String × V)

module _ {V : Type 0} where
  unfoldable pub lookup : String → Dict V → Option V
  lookup name [] = none
  lookup name ((key, value) ∷ others) =
      let later = lookup name others in if str_eq key name then some value else later

  -- m[name] = new
  unfoldable pub insert : String → V → Dict V → Dict V
  insert name new [] = (name, new) ∷ []
  insert name new ((key, old) ∷ others) =
      let later = insert name new others in
      if str_eq key name then (key, new) ∷ others else (key, old) ∷ later

  -- delete(m, name)
  unfoldable pub erase : String → Dict V → Dict V
  erase name [] = []
  erase name ((key, value) ∷ others) =
      let later = erase name others in if str_eq key name then later else (key, value) ∷ later

  pub lookup-insert :
      (name asked : String) (new : V) (m : Dict V)
      → lookup asked (insert name new m) ≡ (if str_eq name asked then some new else lookup asked m)
  unfolding lookup insert
  lookup-insert name asked new [] = refl
  lookup-insert name asked new ((key, old) ∷ others) = ground (
    arith,
    lookup-insert name asked new others,
    eq_iff key name,
    eq_iff key asked,
    eq_iff name asked,
  )

  pub lookup-erase :
      (name asked : String) (m : Dict V)
      → lookup asked (erase name m) ≡ (if str_eq name asked then none else lookup asked m)
  unfolding lookup erase
  lookup-erase name asked [] = ground arith
  lookup-erase name asked ((key, old) ∷ others) =
      ground (
        arith,
        lookup-erase name asked others,
        eq_iff key name,
        eq_iff key asked,
        eq_iff name asked,
      )

  pub lookup-insert_self : (k : String) (v : V) (m : Dict V) → lookup k (insert k v m) ≡ some v
  lookup-insert_self k v m = ground (arith, lookup-insert k k v m, eq_iff k k)

  pub lookup-insert_ne :
      (k j : String) (v : V) (m : Dict V) → k ≢ j → lookup j (insert k v m) ≡ lookup j m
  lookup-insert_ne k j v m h = ground (arith, lookup-insert k j v m, eq_iff k j)

  pub lookup-erase_self : (k : String) (m : Dict V) → lookup k (erase k m) ≡ none
  lookup-erase_self k m = ground (arith, lookup-erase k k m, eq_iff k k)

  pub lookup-erase_ne : (k j : String) (m : Dict V) → k ≢ j → lookup j (erase k m) ≡ lookup j m
  lookup-erase_ne k j m h = ground (arith, lookup-erase k j m, eq_iff k j)
