-- ===== src/Storage/Indexed.antt =====
-- IndexedStore of services/storage/indexed.go, over the map of one transaction of mem.go.
-- The stored objects are any type `O` with their methods, and path.Join makes the index keys.
pub mod Frame
pub mod Laws
use Prim.Native.String.{String, ◌++◌ as str_append}
use text.Mathlib.Text.{◌==◌ as str_eq}
use kapacitor.Prelude.{
  ◌^◌, ltb, map, ℕ, Option, none, some, Bool, true, false, not, List, [], ◌∷◌, if◌then◌else◌, ◌&&◌,
  ◌||◌, leb,
}
use mathlib.Core.List.{reverse, map}
use kapacitor.Prelude.Dict.{Dict, lookup, insert, erase}
use kapacitor.Storage.Kinds.{
  Err, no_key_exists, no_object_exists, object_exists, object_failure, Result, ok, err, KeyValue,
}
use kapacitor.Storage.Mem
use kapacitor.Storage.Listing.{do_list_func}

-- The methods of a BinaryObject, with UnmarshalBinary as a function to a fresh object.
pub record Object (O : Type 0) : Type 0 where
  pub object_id : O → String
  pub marshal : O → Result String
  pub unmarshal : String → Result O

pub record Index (O : Type 0) : Type 0 where
  pub name : String
  pub value_func : O → Result String
  pub unique : Bool

pub record IndexedStore (O : Type 0) : Type 0 where
  pub data_prefix : String
  pub indexes_prefix : String
  pub indexes : List (Index O)

-- path.Join of three elements, path.Match with its error dropped.
pub record Paths : Type 0 where
  pub join : String → String → String → String
  pub match_pattern : String → String → Bool

-- `if err != nil { return err }` behind a step that works on the transaction.
abbrev pub unless_err :
    Dict String × Option Err → (Dict String → Dict String × Option Err) → Dict String × Option Err
unless_err (tx, some e) k = (tx, some e)
unless_err (tx, none) k = k tx

module _ {O : Type 0} (obj : Object O) (paths : Paths) where
  unfoldable pub value_of : Index O → O → Result String
  value_of idx o = elim (idx.value_func o) [
    | err e ↦ err e
    | ok value ↦
        ok (if not idx.unique then str_append value (str_append "/" (obj.object_id o)) else value)
  ]

  module _ (s : IndexedStore O) where
    abbrev pub data_key : String → String
    data_key id = str_append s.data_prefix id

    abbrev pub index_key : String → String → String
    index_key index value = paths.join s.indexes_prefix index value

    unfoldable pub get_tx : Dict String → String → Result O
    get_tx tx id =
        let key = data_key id in
        if not (Mem.exists key tx)
        then err no_object_exists
        else elim (Mem.get key tx) [ err e ↦ err e | ok kv ↦ obj.unmarshal kv.value ]

    -- One round of the loop over the indexes: `old` is the object that is replaced, if there is one.
    -- What was written before an error stays in the transaction, which is then not committed.
    unfoldable pub put_index : Option O → O → Index O → Dict String → Dict String × Option Err
    put_index old o idx tx = elim (value_of idx o) [
      | err e ↦ (tx, some e)
      | ok new_value ↦
          let new_key = index_key idx.name new_value in
          elim old [
            | none ↦ (insert new_key (obj.object_id o) tx, none)
            | some o' ↦ elim (value_of idx o') [
              | err e ↦ (tx, some e)
              | ok old_value ↦
                  let old_key = index_key idx.name old_value in
                  if str_eq old_key new_key
                  then (tx, none)
                  else (erase old_key (insert new_key (obj.object_id o) tx), none)
            ]
          ]
    ]

    unfoldable pub put_indexes :
        Option O → O → List (Index O) → Dict String → Dict String × Option Err
    put_indexes old o [] tx = (tx, none)
    put_indexes old o (idx ∷ idxs) tx = unless_err (put_index old o idx tx) (put_indexes old o idxs)

    -- Put data, then all indexes.
    unfoldable pub write : Option O → O → Dict String → Dict String × Option Err
    write old o tx = elim (obj.marshal o) [
      | err e ↦ (tx, some e)
      | ok value ↦ put_indexes old o s.indexes (insert (data_key (obj.object_id o)) value tx)
    ]

    unfoldable pub put_tx :
        O → (allow_replace require_replace : Bool) → Dict String → Dict String × Option Err
    put_tx o allow_replace require_replace tx = elim (get_tx tx (obj.object_id o)) [
      | err no_object_exists ↦
          if require_replace then (tx, some no_object_exists) else write none o tx
      | err e ↦ (tx, some e)
      | ok old ↦ if not allow_replace then (tx, some object_exists) else write (some old) o tx
    ]

    abbrev pub create_tx : O → Dict String → Dict String × Option Err
    create_tx o = put_tx o false false

    abbrev pub replace_tx : O → Dict String → Dict String × Option Err
    replace_tx o = put_tx o true true

    unfoldable pub delete_indexes : O → List (Index O) → Dict String → Dict String × Option Err
    delete_indexes o [] tx = (tx, none)
    delete_indexes o (idx ∷ idxs) tx = elim (value_of idx o) [
      | err e ↦ (tx, some e)
      | ok value ↦ delete_indexes o idxs (erase (index_key idx.name value) tx)
    ]

    unfoldable pub delete_tx : String → Dict String → Dict String × Option Err
    delete_tx id tx = elim (get_tx tx id) [
      | err no_object_exists ↦ (tx, none)
      | err e ↦ (tx, some e)
      | ok o ↦ delete_indexes o s.indexes (erase (data_key id) tx)
    ]

    -- The objects behind the identifiers of a page.
    pub fetch : Dict String → List String → Result (List O)
    fetch tx [] = ok []
    fetch tx (id ∷ ids) = elim (Mem.get (data_key id) tx) [
      | err e ↦ err e
      | ok kv ↦ elim (obj.unmarshal kv.value) [
        | err e ↦ err e
        | ok o ↦ elim (fetch tx ids) [ err e ↦ err e | ok os ↦ ok (o ∷ os) ]
      ]
    ]

    abbrev match_pattern : (pattern : String) → String → Bool
    match_pattern pattern value =
        if str_eq pattern "" then true else paths.match_pattern pattern value

    -- The identifiers that `list` goes through: with a limit the page of those that match, and
    -- with a negative limit all of them.
    pub page :
        (max_cap : ℕ) (entries : List KeyValue) (pattern : String) (offset limit : ℕ)
        → Option (List String)
    page max_cap entries pattern offset limit =
        if ltb limit (2 ^ 63)
        then do_list_func (match_pattern pattern) max_cap entries offset limit
        else some (map (λ kv. kv.value) entries)

    -- None is the panic of DoListFunc.
    pub list :
        (max_cap : ℕ)
        → Dict String
        → (index pattern : String) (offset limit : ℕ) → (descending : Bool)
        → Option (Result (List O))
    list max_cap tx index pattern offset limit descending =
        let ids = Mem.list (str_append (index_key index "") "/") tx in
        elim (page max_cap (if descending then reverse ids else ids) pattern offset limit) [
          | none ↦ none
          | some matches ↦ some (fetch tx matches)
        ]

    -- deleteIndex: all entries of an index.
    pub erase_all : List KeyValue → Dict String → Dict String
    erase_all [] tx = tx
    erase_all (kv ∷ kvs) tx = erase_all kvs (erase kv.key tx)

    pub delete_index : String → Dict String → Dict String
    delete_index index tx = erase_all (Mem.list (str_append (index_key index "") "/") tx) tx

    pub delete_all_indexes : List (Index O) → Dict String → Dict String
    delete_all_indexes [] tx = tx
    delete_all_indexes (idx ∷ idxs) tx = delete_all_indexes idxs (delete_index idx.name tx)

    -- The entries of one object, written anew.
    pub rebuild_object : O → List (Index O) → Dict String → Dict String × Option Err
    rebuild_object o [] tx = (tx, none)
    rebuild_object o (idx ∷ idxs) tx = elim (value_of idx o) [
      | err e ↦ (tx, some e)
      | ok v ↦ rebuild_object o idxs (insert (index_key idx.name v) (obj.object_id o) tx)
    ]

    pub rebuild_data : List KeyValue → Dict String → Dict String × Option Err
    rebuild_data [] tx = (tx, none)
    rebuild_data (kv ∷ kvs) tx = elim (obj.unmarshal kv.value) [
      | err e ↦ (tx, some e)
      | ok o ↦ unless_err (rebuild_object o s.indexes tx) (rebuild_data kvs)
    ]

    pub rebuild_tx : Dict String → Dict String × Option Err
    rebuild_tx tx =
        let tx' = delete_all_indexes s.indexes tx in rebuild_data (Mem.list s.data_prefix tx') tx'
