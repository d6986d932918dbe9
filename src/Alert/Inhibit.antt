-- ===== src/Alert/Inhibit.antt =====
-- InhibitorLookup of alert/inhibit.go.
pub mod Laws
use Prim.Native.String.{String}
use text.Mathlib.Text.{◌==◌ as str_eq}
use kapacitor.Prelude.{
  ℕ, List, [], ◌∷◌, ◌++◌, Bool, false, true, ◌==◌, if◌then◌else◌, Option, none, some, ◌&&◌,
}
use kapacitor.Prelude.Dict.{Dict, lookup, insert}

pub record Inhibitor : Type 0 where
  pub category : String
  pub tags : Dict String
  pub inhibited : Bool

-- The inhibitors by their addresses, and the addresses that are registered for each category. Both
-- are shared: an alert node sets an inhibitor while it is registered.
pub record InhibitorLookup : Type 0 where
  pub heap : ℕ → Inhibitor
  pub inhibitors : Dict (List ℕ)

-- m[category] and tags[k], where a missing key reads as empty.
abbrev pub registered : String → Dict (List ℕ) → List ℕ
registered category m = elim (lookup category m) [ none ↦ [] | some l ↦ l ]

abbrev pub tag : String → Dict String → String
tag k tags = elim (lookup k tags) [ none ↦ "" | some v ↦ v ]

-- The loop of isMatch.
pub tags_match : (own tags : Dict String) → Bool
tags_match [] tags = true
tags_match ((k, v) ∷ own) tags =
    let rest = tags_match own tags in if str_eq (tag k tags) v then rest else false

pub inhibitor_is_inhibited : Inhibitor → String → Dict String → Bool
inhibitor_is_inhibited i category tags =
    if i.inhibited
    then (if str_eq category i.category then tags_match i.tags tags else false)
    else false

pub any_inhibited : (ℕ → Inhibitor) → List ℕ → String → Dict String → Bool
any_inhibited heap [] category tags = false
any_inhibited heap (i ∷ is) category tags =
    let rest = any_inhibited heap is category tags in
    if inhibitor_is_inhibited (heap i) category tags then true else rest

pub is_inhibited : String → Dict String → InhibitorLookup → Bool
is_inhibited category tags l = any_inhibited l.heap (registered category l.inhibitors) category tags

pub add_inhibitor : ℕ → InhibitorLookup → InhibitorLookup
add_inhibitor i l =
    let category = (l.heap i).category in
    record l {
      inhibitors = insert category (registered category l.inhibitors ++ i ∷ []) l.inhibitors;
    }

-- The slice without the first `i`, if `i` is in it.
pub cut : ℕ → List ℕ → Option (List ℕ)
cut i [] = none
cut i (j ∷ js) =
    let rest = cut i js in
    if j == i then some js else elim rest [ none ↦ none | some others ↦ some (j ∷ others) ]

pub remove_inhibitor : ℕ → InhibitorLookup → InhibitorLookup
remove_inhibitor i l =
    let category = (l.heap i).category in
    elim (cut i (registered category l.inhibitors)) [
      | none ↦ l
      | some others ↦ record l { inhibitors = insert category others l.inhibitors }
    ]

pub set_inhibited : ℕ → Bool → InhibitorLookup → InhibitorLookup
set_inhibited i b l = record l {
  heap = λ j. if j == i then record (l.heap j) { inhibited = b } else l.heap j;
}
