-- ===== src/Storage/Indexed/Frame.antt =====
-- What the loops of IndexedStore (services/storage/indexed.go) leave alone: all that is not an
-- index entry.
use Prim.Native.String.{String}
use kapacitor.Prelude.{Option, none, some, List, [], ◌∷◌, ◌≡◌, ◌≢◌, refl, ◌∙◌, arith, All, inl, inr}
use kapacitor.Prelude.Dict.{Dict, lookup, insert, erase, lookup-insert_ne, lookup-erase_ne}
use kapacitor.Storage.Kinds.{Err, ok, Result-cases}
use kapacitor.Storage.Indexed.{
  Object, Paths, Index, IndexedStore, index_key, value_of, put_index, put_indexes, delete_indexes,
  unless_err,
}

module _ {O : Type 0} (obj : Object O) (paths : Paths) (s : IndexedStore O) where
  -- The key is no entry of the index, for any object.
  abbrev pub OffIndex : String → Index O → Type 0
  OffIndex key idx =
      (o : O) (v : String)
      → value_of obj paths idx o ≡ ok v
      → index_key obj paths s idx.name v ≢ key

  put_index-frame :
      (old : Option O) (o : O) (idx : Index O) (tx : Dict String) (key : String)
      → OffIndex key idx
      → lookup key (put_index obj paths s old o idx tx).0 ≡ lookup key tx
  unfolding put_index
  put_index-frame none o idx tx key off = elim (Result-cases (value_of obj paths idx o)) [
    | inl (e, bad) ↦ ground (arith, bad)
    | inr (v, good) ↦ ground (
      arith,
      good,
      lookup-insert_ne (index_key obj paths s idx.name v) key (obj.object_id o) tx (off o v good),
    )
  ]
  put_index-frame (some o') o idx tx key off = elim (Result-cases (value_of obj paths idx o)) [
    | inl (e, bad) ↦ ground (arith, bad)
    | inr (v, good) ↦ elim (Result-cases (value_of obj paths idx o')) [
      | inl (e, bad) ↦ ground (arith, good, bad)
      | inr (v', good') ↦ ground (
        arith,
        good,
        good',
        lookup-insert_ne (index_key obj paths s idx.name v) key (obj.object_id o) tx (off o v good),
        lookup-erase_ne (index_key obj paths s idx.name v') key
            (insert (index_key obj paths s idx.name v) (obj.object_id o) tx) (off o' v' good'),
      )
    ]
  ]

  pub put_indexes-frame :
      (old : Option O) (o : O) (idxs : List (Index O)) (tx : Dict String) (key : String)
      → All (OffIndex key) idxs
      → lookup key (put_indexes obj paths s old o idxs tx).0 ≡ lookup key tx
  unfolding put_indexes
  put_indexes-frame old o [] tx key off = refl
  put_indexes-frame old o (idx ∷ idxs) tx key off =
      go (put_index obj paths s old o idx tx) (put_index-frame old o idx tx key off.0)
        (λ t. put_indexes-frame old o idxs t key off.1)
    where
      go :
          (r : Dict String × Option Err)
          → lookup key r.0 ≡ lookup key tx
          → ((t : Dict String) → lookup key (put_indexes obj paths s old o idxs t).0 ≡ lookup key t)
          → lookup key (unless_err r (put_indexes obj paths s old o idxs)).0 ≡ lookup key tx
      go (t, none) h k = k t ∙ h
      go (t, some e) h k = h

  pub delete_indexes-frame :
      (o : O) (idxs : List (Index O)) (tx : Dict String) (key : String)
      → All (OffIndex key) idxs
      → lookup key (delete_indexes obj paths s o idxs tx).0 ≡ lookup key tx
  unfolding delete_indexes
  delete_indexes-frame o [] tx key off = refl
  delete_indexes-frame o (idx ∷ idxs) tx key off = elim (Result-cases (value_of obj paths idx o)) [
    | inl (e, bad) ↦ ground (arith, bad)
    | inr (v, good) ↦ ground (
      arith,
      good,
      delete_indexes-frame o idxs (erase (index_key obj paths s idx.name v) tx) key off.1,
      lookup-erase_ne (index_key obj paths s idx.name v) key tx (off.0 o v good),
    )
  ]
