-- ===== src/Examples/Stores.antt =====
-- A store (services/storage) of two documents with one index.
use Prim.Native.String.{String, ◌++◌ as str_append}
use text.Mathlib.Text.{starts_with, ◌==◌ as str_eq}
use text.Mathlib.TextEquality.{eq_iff}
use kapacitor.Prelude.{
  inr, inl, ◌⊎◌, if◌then◌else◌, List, [], ◌∷◌, Option, none, some, Bool, true, false, ◌≡◌, ◌≢◌,
  refl, arith, ap, sym, ◌∙◌,
}
use kapacitor.Prelude.Dict.{erase, lookup, Dict, insert}
use kapacitor.Storage.Kinds.{Result, ok, err, KeyValue, Err, object_failure, no_object_exists}
use kapacitor.Storage.Mem.{get, exists, MemStore, MemTx, do_update}
use kapacitor.Storage.Mem.Atomic.{do_update_atomic}
use kapacitor.Storage.Listing.{do_list_func}
use kapacitor.Storage.Listing.Page.{do_list_func_lem}
use kapacitor.Storage.Indexed.{
  delete_indexes, put_index, put_indexes, index_key, write, value_of, Object, Index, IndexedStore,
  Paths, get_tx, put_tx, delete_tx,
}
use kapacitor.Storage.Indexed.Laws.{Apart, put_tx-get, put_tx-frame, delete_tx-get}

data Doc : Type 0 where
  first_doc second_doc : Doc

abbrev doc_id : Doc → String
doc_id first_doc = "a"
doc_id second_doc = "b"

abbrev docs : Object Doc
docs = record {
  object_id = doc_id;
  marshal = λ d. ok (doc_id d);
  unmarshal = λ v.
      if str_eq v "a"
      then ok first_doc
      else if str_eq v "b"
      then ok second_doc
      else err (object_failure "bad");
}

abbrev title : Doc → Result String
title first_doc = ok "t"
title second_doc = ok "u"

abbrev title_index : Index Doc
title_index = record { name = "title"; value_func = title; unique = true }

abbrev paths : Paths
paths = record {
  join = λ a b c. str_append a (str_append b (str_append "/" c));
  match_pattern = λ p v. str_eq p v;
}

abbrev store : IndexedStore Doc
store = record { data_prefix = "data/"; indexes_prefix = "indexes/"; indexes = title_index ∷ [] }

distinct : (s t : String) → str_eq s t ≡ false → s ≢ t
distinct s t h e = ground (arith, h, (eq_iff s t).1 e)

title_key :
    (d : Doc) (v : String) → value_of docs paths title_index d ≡ ok v → (v ≡ "t") ⊎ (v ≡ "u")
unfolding value_of
title_key first_doc v h = inl (grind (arith, h))
title_key second_doc v h = inr (grind (arith, h))

apart :
    (id : String)
    → str_eq "indexes/title/t" (str_append "data/" id) ≡ false
    → str_eq "indexes/title/u" (str_append "data/" id) ≡ false
    → Apart docs paths store id
apart id t u = (
  λ d v h. elim (title_key d v h) [
    | inl e ↦ λ k.
        distinct "indexes/title/t" (str_append "data/" id) t
          (ap (λ x. index_key docs paths store "title" x) (sym e) ∙ k)
    | inr e ↦ λ k.
        distinct "indexes/title/u" (str_append "data/" id) u
          (ap (λ x. index_key docs paths store "title" x) (sym e) ∙ k)
  ],
  tt,
)

-- The first document is stored under another title, the second as it is.
abbrev tx : Dict String
tx = ("data/a", "a") ∷ ("indexes/title/s", "a") ∷ ("data/b", "b") ∷ ("indexes/title/u", "b") ∷ []

done : (put_tx docs paths store first_doc true false tx).1 ≡ none
unfolding put_tx get_tx write put_indexes put_index value_of exists get insert lookup erase
done = refl

put_tx-get_example :
    get_tx docs paths store (put_tx docs paths store first_doc true false tx).0 "a" ≡ ok first_doc
put_tx-get_example =
    put_tx-get docs paths store first_doc true false tx (apart "a" refl refl) round_trip done
  where
    round_trip : (v : String) → ok "a" ≡ ok v → docs.unmarshal v ≡ ok first_doc
    round_trip v h =
        ap (λ (r : Result String). elim r [ ok x ↦ docs.unmarshal x | err e ↦ err e ]) (sym h)

put_tx-frame_example :
    get_tx docs paths store (put_tx docs paths store first_doc true false tx).0 "b"
    ≡ get_tx docs paths store tx "b"
put_tx-frame_example =
    put_tx-frame docs paths store first_doc true false tx "b" (apart "b" refl refl)
      (distinct "a" "b" refl)

deleted : (delete_tx docs paths store "a" tx).1 ≡ none
unfolding delete_tx get_tx delete_indexes value_of exists get lookup erase
deleted = refl

delete_tx-get_example :
    get_tx docs paths store (delete_tx docs paths store "a" tx).0 "a" ≡ err no_object_exists
delete_tx-get_example = delete_tx-get docs paths store "a" tx (apart "a" refl refl) deleted

abbrev entries : List KeyValue
entries =
    record { key = "k1"; value = "x" }
    ∷ record { key = "k2"; value = "y" }
    ∷ record { key = "k3"; value = "xx" }
    ∷ record { key = "k4"; value = "xyz" }
    ∷ []

abbrev begins_with_x : String → Bool
begins_with_x v = starts_with v "x"

do_list_func_lem_example : do_list_func begins_with_x 1000 entries 1 2 ≡ some ("xx" ∷ "xyz" ∷ [])
do_list_func_lem_example =
    do_list_func_lem begins_with_x 1000 entries 1 2 (omega arith) (omega arith) (omega arith)
      (omega arith)

-- A function that writes and then fails.
abbrev failing : MemTx → MemTx × Option Err
failing t = (record t { store = ("k", "v") ∷ t.store }, some (object_failure "late"))

abbrev mem : MemStore
mem = record { store = ("k", "old") ∷ []; locked = false }

do_update_atomic_example : do_update mem failing ≡ some (mem, some (object_failure "late"))
do_update_atomic_example = do_update_atomic mem failing refl refl
