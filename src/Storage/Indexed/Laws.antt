-- ===== src/Storage/Indexed/Laws.antt =====
-- Objects of an IndexedStore (services/storage/indexed.go) against the map from identifiers to
-- objects that it stands for.
use Prim.Native.String.{String}
use text.Mathlib.TextLemmas.{append_cancel_left}
use kapacitor.Prelude.{
  Bool-cases, ◌⊎◌, Option, none, some, ◌≡◌, ◌≢◌, refl, sym, ap, ◌∙◌, arith, All, inl, inr, Bool,
}
use kapacitor.Prelude.Dict.{
  Dict, lookup, insert, erase, lookup-insert_self, lookup-insert_ne, lookup-erase_self,
  lookup-erase_ne,
}
use kapacitor.Storage.Kinds.{
  Err, Result, ok, err, Result-cases, no_object_exists, object_exists, no_key_exists, cannot_commit,
  object_failure,
}
use kapacitor.Storage.Mem
use kapacitor.Storage.Indexed.{
  object_failure, Object, Paths, IndexedStore, data_key, get_tx, put_tx, write, delete_tx,
  put_indexes, delete_indexes,
}
use kapacitor.Storage.Indexed.Frame.{OffIndex, put_indexes-frame, delete_indexes-frame}

module _ {O : Type 0} (obj : Object O) (paths : Paths) (s : IndexedStore O) where
  -- No index entry of any object has the key of the object `id`.
  abbrev pub Apart : String → Type 0
  Apart id = All (OffIndex obj paths s (data_key obj paths s id)) s.indexes

  -- What get_tx reads is the entry of the object alone.
  get_tx_lem :
      (tx tx' : Dict String) (id : String)
      → lookup (data_key obj paths s id) tx' ≡ lookup (data_key obj paths s id) tx
      → get_tx obj paths s tx' id ≡ get_tx obj paths s tx id
  unfolding get_tx Mem.exists Mem.get
  get_tx_lem tx tx' id h = ground arith

  get_tx-some :
      (tx : Dict String) (id value : String)
      → lookup (data_key obj paths s id) tx ≡ some value
      → get_tx obj paths s tx id ≡ obj.unmarshal value
  unfolding get_tx Mem.exists Mem.get
  get_tx-some tx id value h = ground arith

  get_tx-none :
      (tx : Dict String) (id : String)
      → lookup (data_key obj paths s id) tx ≡ none
      → get_tx obj paths s tx id ≡ err no_object_exists
  unfolding get_tx Mem.exists Mem.get
  get_tx-none tx id h = ground arith

  write-get :
      (old : Option O) (o : O) (tx : Dict String)
      → Apart (obj.object_id o)
      → ((v : String) → obj.marshal o ≡ ok v → obj.unmarshal v ≡ ok o)
      → (write obj paths s old o tx).1 ≡ none
      → get_tx obj paths s (write obj paths s old o tx).0 (obj.object_id o) ≡ ok o
  unfolding write
  write-get old o tx apart round done = elim (Result-cases (obj.marshal o)) [
    | inl (e, bad) ↦ ground (arith, bad)
    | inr (v, good) ↦
        let key = data_key obj paths s (obj.object_id o) in
        let tx' = insert key v tx in
        let kept =
          put_indexes-frame obj paths s old o s.indexes tx' key apart
          ∙ lookup-insert_self key v tx in
        ground (
          arith,
          good,
          round v good,
          get_tx-some (put_indexes obj paths s old o s.indexes tx').0 (obj.object_id o) v kept,
        )
  ]

  write-frame :
      (old : Option O) (o : O) (tx : Dict String) (id : String)
      → Apart id
      → data_key obj paths s (obj.object_id o) ≢ data_key obj paths s id
      → get_tx obj paths s (write obj paths s old o tx).0 id ≡ get_tx obj paths s tx id
  unfolding write
  write-frame old o tx id apart ne = elim (Result-cases (obj.marshal o)) [
    | inl (e, bad) ↦ ground (arith, bad)
    | inr (v, good) ↦
        let key = data_key obj paths s (obj.object_id o) in
        let tx' = insert key v tx in
        ground (
          arith,
          good,
          get_tx_lem tx (put_indexes obj paths s old o s.indexes tx').0 id (
              put_indexes-frame obj paths s old o s.indexes tx' (data_key obj paths s id) apart
              ∙ lookup-insert_ne key (data_key obj paths s id) v tx ne),
        )
  ]

  -- A put writes, or it returns an error and changes nothing.
  put_tx-cases :
      (o : O) (ar rr : Bool) (tx : Dict String)
      → ((old : Option O) × (put_tx obj paths s o ar rr tx ≡ write obj paths s old o tx))
        ⊎ ((e : Err) × (put_tx obj paths s o ar rr tx ≡ (tx, some e)))
  unfolding put_tx
  put_tx-cases o ar rr tx = go (get_tx obj paths s tx (obj.object_id o)) refl
    where
      go :
          (r : Result O)
          → get_tx obj paths s tx (obj.object_id o) ≡ r
          → ((old : Option O) × (put_tx obj paths s o ar rr tx ≡ write obj paths s old o tx))
            ⊎ ((e : Err) × (put_tx obj paths s o ar rr tx ≡ (tx, some e)))
      go (ok old) h = elim (Bool-cases ar) [
        | inl yes_replace ↦ inl (some old, ground arith)
        | inr no_replace ↦ inr (object_exists, ground arith)
      ]
      go (err no_object_exists) h = elim (Bool-cases rr) [
        | inl required ↦ inr (no_object_exists, ground arith)
        | inr optional ↦ inl (none, ground arith)
      ]
      go (err no_key_exists) h = inr (no_key_exists, ground arith)
      go (err object_exists) h = inr (object_exists, ground arith)
      go (err cannot_commit) h = inr (cannot_commit, ground arith)
      go (err (object_failure x)) h = inr (object_failure x, ground arith)

  -- A put that succeeds, with any of its two flags: get then returns the object that was put, if
  -- its bytes are read back as the object and no index entry of any object has its key.
  pub put_tx-get :
      (o : O) (allow_replace require_replace : Bool) (tx : Dict String)
      → Apart (obj.object_id o)
      → ((v : String) → obj.marshal o ≡ ok v → obj.unmarshal v ≡ ok o)
      → (put_tx obj paths s o allow_replace require_replace tx).1 ≡ none
      → get_tx obj paths s
          (put_tx obj paths s o allow_replace require_replace tx).0
          (obj.object_id o)
        ≡ ok o
  put_tx-get o ar rr tx apart round done = elim (put_tx-cases o ar rr tx) [
    | inl (old, e) ↦
        ap (λ r. get_tx obj paths s r.0 (obj.object_id o)) e
        ∙ write-get old o tx apart round (sym (ap (λ r. r.1) e) ∙ done)
    | inr (x, e) ↦ absurd (refused (sym (ap (λ r. r.1) e) ∙ done))
  ]
    where
      refused : {x : Err} → some x ≡ none → ⊥
      refused h = cc

  -- A put of one object, whether it succeeds or not, does not change what get returns for another
  -- identifier, if no index entry of any object has the key of that one.
  pub put_tx-frame :
      (o : O) (allow_replace require_replace : Bool) (tx : Dict String) (id : String)
      → Apart id
      → obj.object_id o ≢ id
      → get_tx obj paths s (put_tx obj paths s o allow_replace require_replace tx).0 id
        ≡ get_tx obj paths s tx id
  put_tx-frame o ar rr tx id apart ne = elim (put_tx-cases o ar rr tx) [
    | inl (old, e) ↦
        ap (λ r. get_tx obj paths s r.0 id) e
        ∙ write-frame old o tx id apart
            (λ h. ne (append_cancel_left s.data_prefix (obj.object_id o) id h))
    | inr (x, e) ↦ ap (λ r. get_tx obj paths s r.0 id) e
  ]

  -- A delete removes the entry and works on the indexes, or it leaves everything as it was.
  delete_tx-cases :
      (id : String) (tx : Dict String)
      → ((o : O) × (delete_tx obj paths s id tx
            ≡ delete_indexes obj paths s o s.indexes (erase (data_key obj paths s id) tx)))
        ⊎ (((get_tx obj paths s tx id ≡ err no_object_exists)
              ⊎ ((delete_tx obj paths s id tx).1 ≢ none))
            × ((delete_tx obj paths s id tx).0 ≡ tx))
  unfolding delete_tx
  delete_tx-cases id tx = go (get_tx obj paths s tx id) refl
    where
      go :
          (r : Result O)
          → get_tx obj paths s tx id ≡ r
          → ((o : O) × (delete_tx obj paths s id tx
                ≡ delete_indexes obj paths s o s.indexes (erase (data_key obj paths s id) tx)))
            ⊎ (((get_tx obj paths s tx id ≡ err no_object_exists)
                  ⊎ ((delete_tx obj paths s id tx).1 ≢ none))
                × ((delete_tx obj paths s id tx).0 ≡ tx))
      go (ok o) h = inl (o, ground arith)
      go (err no_object_exists) h = inr (inl h, ground arith)
      go (err no_key_exists) h = inr (inr (ground arith), ground arith)
      go (err object_exists) h = inr (inr (ground arith), ground arith)
      go (err cannot_commit) h = inr (inr (ground arith), ground arith)
      go (err (object_failure x)) h = inr (inr (ground arith), ground arith)

  -- After a delete that returns no error the object is gone, also where it was not there before,
  -- if no index entry of any object has its key.
  pub delete_tx-get :
      (id : String) (tx : Dict String)
      → Apart id
      → (delete_tx obj paths s id tx).1 ≡ none
      → get_tx obj paths s (delete_tx obj paths s id tx).0 id ≡ err no_object_exists
  delete_tx-get id tx apart done = elim (delete_tx-cases id tx) [
    | inl (o, e) ↦ get_tx-none (delete_tx obj paths s id tx).0 id (
        ap (λ r. lookup (data_key obj paths s id) r.0) e
        ∙ delete_indexes-frame obj paths s o s.indexes (erase (data_key obj paths s id) tx)
            (data_key obj paths s id) apart
        ∙ lookup-erase_self (data_key obj paths s id) tx)
    | inr (why, e) ↦ ap (λ t. get_tx obj paths s t id) e ∙ missing why
  ]
    where
      missing :
          (get_tx obj paths s tx id ≡ err no_object_exists)
            ⊎ ((delete_tx obj paths s id tx).1 ≢ none)
          → get_tx obj paths s tx id ≡ err no_object_exists
      missing (inl h) = h
      missing (inr h) = absurd (h done)

  -- A delete of one object, whether it succeeds or not, does not change what get returns for
  -- another identifier, if no index entry of any object has the key of that one.
  pub delete_tx-frame :
      (id other : String) (tx : Dict String)
      → Apart other
      → id ≢ other
      → get_tx obj paths s (delete_tx obj paths s id tx).0 other ≡ get_tx obj paths s tx other
  delete_tx-frame id other tx apart ne = elim (delete_tx-cases id tx) [
    | inl (o, e) ↦ get_tx_lem tx (delete_tx obj paths s id tx).0 other (
        ap (λ r. lookup (data_key obj paths s other) r.0) e
        ∙ delete_indexes-frame obj paths s o s.indexes (erase (data_key obj paths s id) tx)
            (data_key obj paths s other) apart
        ∙ lookup-erase_ne (data_key obj paths s id) (data_key obj paths s other) tx
            (λ h. ne (append_cancel_left s.data_prefix id other h)))
    | inr (why, e) ↦ ap (λ t. get_tx obj paths s t other) e
  ]
