-- ===== src/Auth/Walk.antt =====
-- Which entry decides about an action (AuthorizeAction of auth/auth.go).
use Prim.Native.String.{String}
use text.Mathlib.TextEquality.{eq_iff}
use kapacitor.Prelude.{
  ◌⊎◌, ℕ, zero, suc, ◌≤◌, ◌≡◌, ◌≢◌, refl, ap, List, [], ◌∷◌, Option, none, some, false, not, ◌||◌,
  if◌then◌else◌, ◌==◌, length, arith, inl, inr,
}
use kapacitor.Prelude.Dict.{Dict, lookup}
use kapacitor.Auth.{
  Privilege, no_privileges, Action, User, Paths, Decision, authorized, invalid_resource, denied,
  allows, walk, authorize_action,
}

module _ (paths : Paths) where
  -- The resources from one up to the root, as path.Dir goes.
  pub data Ancestry : String → List String → Type 0 where
    root : Ancestry "/" ("/" ∷ [])
    up : {r : String} {rs : List String} → r ≢ "/" → Ancestry (paths.dir r) rs → Ancestry r (r ∷ rs)

  -- The entry of the first resource that has one.
  abbrev pub nearest : Dict Privilege → List String → Option Privilege
  nearest ps [] = none
  nearest ps (r ∷ rs) = elim (lookup r ps) [ some p ↦ some p | none ↦ nearest ps rs ]

  abbrev pub decided : Option Privilege → Privilege → Decision
  decided none privilege = denied
  decided (some p) privilege = if allows p privilege then authorized else denied

  nearest_nil : (rs : List String) → nearest [] rs ≡ none
  unfolding lookup
  nearest_nil [] = refl
  nearest_nil (r ∷ rs) = nearest_nil rs

  walk_lem :
      (fuel : ℕ) (ps : Dict Privilege) (privilege : Privilege) (r : String) (rs : List String)
      → Ancestry r rs
      → length rs ≤ fuel
      → walk paths fuel ps privilege r ≡ some (decided (nearest ps rs) privilege)
  unfolding walk
  walk_lem zero ps privilege _ _ root h = absurd (omega arith)
  walk_lem zero ps privilege _ _ (up ne a) h = absurd (omega arith)
  walk_lem (suc fuel) ps privilege _ _ root h = ground (arith, eq_iff "/" "/")
  walk_lem (suc fuel) ps privilege r _ (up {rs} ne a) h =
      ground (arith, eq_iff r "/", ne, walk_lem fuel ps privilege (paths.dir r) rs a (omega arith))

  -- Every action gets a decision, if the clean resource goes up to the root by path.Dir in fewer
  -- rounds than the fuel: an administrator and the empty privilege are authorized; else a resource
  -- that is not absolute is invalid; else the entry of the nearest resource on the way up decides
  -- alone, also where it refuses and one further up would not, and the action is denied if there is
  -- none.
  pub authorize_action_lem :
      (fuel : ℕ) (u : User) (action : Action) (rs : List String)
      → Ancestry (paths.clean action.resource) rs
      → length rs ≤ fuel
      → authorize_action paths fuel u action
        ≡ some (
            if action.privilege == no_privileges || u.admin
            then authorized
            else if not (paths.is_abs action.resource)
            then invalid_resource
            else decided (nearest u.privileges rs) action.privilege)
  unfolding authorize_action
  authorize_action_lem fuel u action rs a h = elim (list-cases u.privileges) [
    | inl e ↦ ground (arith, ap length e, ap (λ ps. nearest ps rs) e, nearest_nil rs)
    | inr more ↦ ground (
      arith,
      more,
      walk_lem fuel u.privileges action.privilege (paths.clean action.resource) rs a h,
    )
  ]
    where
      list-cases : (ps : Dict Privilege) → (ps ≡ []) ⊎ ((length ps == 0) ≡ false)
      list-cases [] = inl refl
      list-cases (p ∷ ps) = inr (ground arith)
