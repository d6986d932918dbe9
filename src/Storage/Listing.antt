-- ===== src/Storage/Listing.antt =====
-- DoListFunc of services/storage/storage.go: a page of the values that match. An int is its bit
-- pattern, a number below 2 ^ 64, as in Combine.antt.
pub mod Counting
pub mod Page
use Prim.Native.String.{String}
use kapacitor.Prelude.{
  append_assoc, length-append, length-take, ap₂, length-drop, drop-eq_self, ℕ, append-nil, dec_lt,
  ℕ_discrete, inl, inr, zero, suc, ◌+◌, ◌-◌, ◌≤◌, ◌<◌, ◌≡◌, refl, ap, sym, ◌∙◌, List, [], ◌∷◌, ◌++◌,
  Bool, false, ◌*◌, ◌%◌, ◌^◌, Option, none, some, ltb, leb, not, ◌==◌, if◌then◌else◌, length, take,
  drop, arith, Bool-cases,
}
use kapacitor.Combine.{gt_64}
use kapacitor.Tick.Values.{add_64, sub_64}
use kapacitor.Storage.Kinds.{KeyValue}

module _ (matches : String → Bool) where
  -- The loop over `list`: `i` matches seen before, `found` collected so far. It stops when `size`
  -- values are collected.
  unfoldable pub collect : (offset size i : ℕ) → List String → List KeyValue → List String
  collect offset size i found [] = found
  collect offset size i found (kv ∷ list) =
      let skipped = collect offset size i found list in
      let before = collect offset size (i + 1) found list in
      let found' = found ++ kv.value ∷ [] in
      let on = collect offset size (i + 1) found' list in
      if not (matches kv.value)
      then skipped
      else if not (gt_64 (i + 1) offset)
      then before
      else if length found' == size
      then found'
      else on

  -- The sum and the difference may overflow. `make` panics for more than `max_cap` values, the most
  -- that a slice of texts can have room for.
  unfoldable pub do_list_func :
      (max_cap : ℕ) → List KeyValue → (offset limit : ℕ) → Option (List String)
  do_list_func max_cap list offset limit =
      let l = length list in
      let sum = add_64 offset limit in
      let upper = if gt_64 sum l then l else sum in
      let size = sub_64 upper offset in
      if not (gt_64 size 0)
      then some []
      else if ltb max_cap size
      then none
      else some (collect offset size 0 [] list)

  -- The values that match, in the order of the list.
  abbrev pub matching : List KeyValue → List String
  matching [] = []
  matching (kv ∷ list) = if matches kv.value then kv.value ∷ matching list else matching list
