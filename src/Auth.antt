-- ===== src/Auth.antt =====
-- Users and their privileges (auth/auth.go). path.Clean, path.IsAbs and path.Dir are parameters.
pub mod Walk
use Prim.Native.String.{String}
use Prim.Native.Nat.{bit_and, bit_or}
use text.Mathlib.Text.{◌==◌ as str_eq}
use kapacitor.Prelude.{
  ℕ, zero, suc, List, [], ◌∷◌, Option, none, some, Bool, true, false, not, ◌&&◌, ◌||◌,
  if◌then◌else◌, ◌==◌, ltb, length,
}
use kapacitor.Prelude.Dict.{Dict, lookup, insert}

-- `type Privilege uint`: one bit each, and unions of them.
abbrev pub Privilege : Type 0
Privilege = ℕ

abbrev pub no_privileges : Privilege
no_privileges = 1

abbrev pub read_privilege : Privilege
read_privilege = 2

abbrev pub write_privilege : Privilege
write_privilege = 4

abbrev pub delete_privilege : Privilege
delete_privilege = 8

abbrev pub all_privileges : Privilege
all_privileges = 16

abbrev pub privilege_list : List Privilege
privilege_list =
    no_privileges ∷ read_privilege ∷ write_privilege ∷ delete_privilege ∷ all_privileges ∷ []

pub record Action : Type 0 where
  pub resource : String
  pub privilege : Privilege

-- The hash of the password is not read here.
pub record User : Type 0 where
  pub name : String
  pub admin : Bool
  pub privileges : Dict Privilege

pub record Paths : Type 0 where
  pub clean : String → String
  pub is_abs : String → Bool
  pub dir : String → String

-- The three results of AuthorizeAction: nil and its two errors.
pub data Decision : Type 0 where
  authorized invalid_resource denied : Decision

pub mask : List Privilege → Privilege
mask [] = 0
mask (p ∷ ps) = bit_or p (mask ps)

-- The privileges that are in a mask.
pub unmask : List Privilege → (mask : Privilege) → List Privilege
unmask [] m = []
unmask (p ∷ ps) m = let rest = unmask ps m in if bit_and m p == 0 then rest else p ∷ rest

-- User.Privileges: a resource whose mask is empty has no entry.
pub listed : Dict Privilege → Dict (List Privilege)
listed [] = []
listed ((r, m) ∷ u) =
    let rest = listed u in
    let ps = unmask privilege_list m in if length ps == 0 then rest else (r, ps) ∷ rest

-- The test at a resource that has an entry.
unfoldable pub allows : Privilege → Privilege → Bool
allows p privilege = not (bit_and p privilege == 0) || p == all_privileges

module _ (paths : Paths) where
  -- The masks by clean resource, the entries in the order in which the map is gone through.
  pub cleaned : List (String × List Privilege) → Dict Privilege → Dict Privilege
  cleaned [] ps = ps
  cleaned ((resource, given) ∷ rest) ps =
      cleaned rest (insert (paths.clean resource) (mask given) ps)

  pub new_user : String → (admin : Bool) → List (String × List Privilege) → User
  new_user name admin privileges = record {
    name = name;
    admin = admin;
    privileges = cleaned privileges [];
  }

  -- The loop: up from the resource to the first one with an entry. `none`: out of rounds.
  pub walk : (fuel : ℕ) → Dict Privilege → Privilege → (resource : String) → Option Decision
  walk zero ps privilege resource = none
  walk (suc fuel) ps privilege resource =
      let above = walk fuel ps privilege (paths.dir resource) in
      elim (lookup resource ps) [
        | some p ↦ some (if allows p privilege then authorized else denied)
        | none ↦ if str_eq resource "/" then some denied else above
      ]

  pub authorize_action : (fuel : ℕ) → User → Action → Option Decision
  authorize_action fuel u action =
      if action.privilege == no_privileges || u.admin
      then some authorized
      else if not (paths.is_abs action.resource)
      then some invalid_resource
      else if ltb 0 (length u.privileges)
      then walk fuel u.privileges action.privilege (paths.clean action.resource)
      else some denied
