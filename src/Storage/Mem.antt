-- ===== src/Storage/Mem.antt =====
-- MemStore and memTx of services/storage/mem.go, and DoUpdate and DoView of storage.go.
pub mod Atomic
use Prim.Native.String.{String}
use Prim.Native.String
use Prim.Native.Nat.{Ordering}
use text.Mathlib.Text.{starts_with}
use kapacitor.Prelude.{Option, none, some, Bool, true, false, List, [], ◌∷◌, if◌then◌else◌}
use kapacitor.Prelude.Dict.{Dict, lookup, insert, erase}
use kapacitor.Storage.Kinds.{Err, no_key_exists, cannot_commit, Result, ok, err, KeyValue}

-- `mu` is held by the open transaction, if there is one. The name is used nowhere.
pub record MemStore : Type 0 where
  pub store : Dict String
  pub locked : Bool

pub data TxState : Type 0 where
  un_committed committed rolledback : TxState

-- The pointer to the store is the store itself, passed beside the transaction.
pub record MemTx : Type 0 where
  pub state : TxState
  pub store : Dict String

unfoldable pub get : String → Dict String → Result KeyValue
get key m = elim (lookup key m) [
  | none ↦ err no_key_exists
  | some v ↦ ok (record { key = key; value = v })
]

unfoldable pub exists : String → Dict String → Bool
exists key m = elim (lookup key m) [ none ↦ false | some _ ↦ true ]

abbrev key_less : KeyValue → KeyValue → Bool
key_less a b = elim (String.compare a.key b.key) [ Ordering.lt ↦ true | _ ↦ false ]

insert_sorted : KeyValue → List KeyValue → List KeyValue
insert_sorted kv [] = kv ∷ []
insert_sorted kv (x ∷ xs) =
    let rest = insert_sorted kv xs in if key_less x kv then x ∷ rest else kv ∷ x ∷ xs

-- sort.Sort(keySortedKVs(kvs)): the keys are distinct, so every sort gives this list.
sort_by_key : List KeyValue → List KeyValue
unfolding insert_sorted
sort_by_key [] = []
sort_by_key (kv ∷ kvs) = insert_sorted kv (sort_by_key kvs)

with_prefix : String → Dict String → List KeyValue
with_prefix prefix [] = []
with_prefix prefix ((k, v) ∷ m) =
    let rest = with_prefix prefix m in
    if starts_with k prefix then record { key = k; value = v } ∷ rest else rest

unfoldable pub list : String → Dict String → List KeyValue
unfolding with_prefix sort_by_key
list prefix m = sort_by_key (with_prefix prefix m)

-- A new transaction takes the lock and works on a copy of the map. `none`: it waits for the lock.
unfoldable pub new_tx : MemStore → Option (MemTx × MemStore)
new_tx s =
    if s.locked
    then none
    else some (record { state = un_committed; store = s.store }, record s { locked = true })

unfoldable pub commit : MemTx → MemStore → MemTx × MemStore × Option Err
commit t s = elim t.state [
  | un_committed ↦
      (record t { state = committed }, record { store = t.store; locked = false }, none)
  | _ ↦ (t, s, some cannot_commit)
]

unfoldable pub rollback : MemTx → MemStore → MemTx × MemStore
rollback t s = elim t.state [
  | un_committed ↦ (record t { state = rolledback }, record s { locked = false })
  | _ ↦ (t, s)
]

-- `f` works on the transaction and returns it with its error, if any.
unfoldable pub do_update : MemStore → (MemTx → MemTx × Option Err) → Option (MemStore × Option Err)
unfolding new_tx commit rollback
do_update s f = elim (new_tx s) [
  | none ↦ none
  | some (t, s') ↦
      let (t', e) = f t in
      some (elim e [
        | some x ↦ ((rollback t' s').1, some x)
        | none ↦ let (t'', s'', e') = commit t' s' in ((rollback t'' s'').1, e')
      ])
]

-- What a read returns goes out beside its error.
unfoldable pub do_view {ℓ} : {A : Type ℓ} → MemStore → (MemTx → A) → Option (MemStore × A)
unfolding new_tx rollback
do_view s f = elim (new_tx s) [ none ↦ none | some (t, s') ↦ some ((rollback t s').1, f t) ]
