-- ===== src/Storage/Listing/Page.antt =====
-- The pages of DoListFunc (services/storage/storage.go).
use Prim.Native.String.{String}
use kapacitor.Prelude.{
  true, ℕ, dec_lt, inl, inr, ◌+◌, ◌-◌, ◌≤◌, ◌<◌, ◌≡◌, refl, ap, sym, ◌∙◌, List, [], ◌∷◌, ◌++◌, Bool,
  false, ◌&&◌, ◌^◌, Option, none, some, ltb, leb, not, ◌==◌, if◌then◌else◌, length, take, drop,
  arith, Bool-cases,
}
use kapacitor.Combine.{gt_64}
use kapacitor.Tick.Values.{add_64, sub_64}
use kapacitor.Storage.Listing.{collect, do_list_func, matching}
use kapacitor.Storage.Listing.Counting.{count_up, count_up_lem, clamped_lem}
use kapacitor.Storage.Kinds.{KeyValue}

module _ (matches : String → Bool) where
  small-gt : (a b : ℕ) → a < 2 ^ 63 → b < 2 ^ 63 → gt_64 a b ≡ ltb b a
  small-gt a b ha hb = ground (arith, ha, hb)

  collect-count_up :
      (offset size i : ℕ) (found : List String) (list : List KeyValue)
      → offset < 2 ^ 63
      → i + length list < 2 ^ 63
      → collect matches offset size i found list ≡ count_up matches offset size i found list
  unfolding collect count_up
  collect-count_up offset size i found [] ho hi = refl
  collect-count_up offset size i found (kv ∷ list) ho hi = ground (
    arith,
    small-gt (i + 1) offset (omega (arith, hi)) ho,
    collect-count_up offset size i found list ho (omega (arith, hi)),
    collect-count_up offset size (i + 1) found list ho (omega (arith, hi)),
    collect-count_up offset size (i + 1) (found ++ kv.value ∷ []) list ho (omega (arith, hi)),
  )

  -- A negative limit is none.
  abbrev pub at_least_0 : ℕ → ℕ
  at_least_0 limit = if ltb limit (2 ^ 63) then limit else 0

  add-fits : (a b : ℕ) → a + b < 2 ^ 64 → add_64 a b ≡ a + b
  add-fits a b h = ground arith

  sub-fits : (a b : ℕ) → b ≤ a → a < 2 ^ 64 → sub_64 a b ≡ a - b
  sub-fits a b h k = ground arith

  sub-negative : (a b : ℕ) → a < b → b < 2 ^ 63 → gt_64 (sub_64 a b) 0 ≡ false
  sub-negative a b h k = ground arith

  sub-from_over : (a b : ℕ) → a < 2 ^ 64 → b < 2 ^ 64 → sub_64 (add_64 a b) a ≡ b
  sub-from_over a b h k = ground arith

  gt-over : (a b : ℕ) → 2 ^ 63 ≤ a → a < 2 ^ 64 → b < 2 ^ 63 → gt_64 a b ≡ false
  gt-over a b h k m = ground arith

  gt-negative : (a : ℕ) → 2 ^ 63 ≤ a → gt_64 a 0 ≡ false
  gt-negative a h = ground arith

  -- The page once `upper` is known.
  page_to : (max_cap : ℕ) → List KeyValue → (offset upper : ℕ) → Option (List String)
  page_to max_cap list offset upper =
      let size = sub_64 upper offset in
      if not (gt_64 size 0)
      then some []
      else if ltb max_cap size
      then none
      else some (collect matches offset size 0 [] list)

  upper_of : (l offset limit : ℕ) → ℕ
  upper_of l offset limit = let sum = add_64 offset limit in if gt_64 sum l then l else sum

  do_list_func-page_to :
      (max_cap : ℕ) (list : List KeyValue) (offset limit : ℕ)
      → do_list_func matches max_cap list offset limit
        ≡ page_to max_cap list offset (upper_of (length list) offset limit)
  unfolding do_list_func page_to upper_of
  do_list_func-page_to max_cap list offset limit = refl

  page_to-within :
      (max_cap : ℕ) (list : List KeyValue) (offset upper : ℕ)
      → offset < 2 ^ 63
      → length list < 2 ^ 63
      → length list ≤ max_cap
      → upper ≤ length list
      → page_to max_cap list offset upper
        ≡ some
            (if upper - offset == 0 then [] else count_up matches offset (upper - offset) 0 [] list)
  unfolding page_to
  page_to-within max_cap list offset upper ho hl hc hu = elim (dec_lt upper offset) [
    | yes past ↦ ground (arith, sub-negative upper offset past ho)
    | no h ↦ rw (sub-fits upper offset (omega (arith, h)) (omega (arith, hu, hl))) (
        ground (
          arith,
          small-gt (upper - offset) 0 (omega (arith, hu, hl)) (omega arith),
          collect-count_up offset (upper - offset) 0 [] list ho (omega (arith, hl)),
        ))
  ]

  page_to-negative :
      (max_cap : ℕ) (list : List KeyValue) (offset upper : ℕ)
      → gt_64 (sub_64 upper offset) 0 ≡ false
      → page_to max_cap list offset upper ≡ some []
  unfolding page_to
  page_to-negative max_cap list offset upper h = rw h refl

  -- A sum that overflows is taken for the upper bound, and the size is then the limit.
  page_to-over :
      (max_cap : ℕ) (list : List KeyValue) (offset limit : ℕ)
      → offset < 2 ^ 63
      → limit < 2 ^ 63
      → length list < 2 ^ 63
      → 0 < limit
      → page_to max_cap list offset (add_64 offset limit) ≡ (
          if ltb max_cap limit
          then none
          else some (take limit (drop offset (matching matches list))))
  unfolding page_to
  page_to-over max_cap list offset limit ho hm hl h =
      rw (sub-from_over offset limit (omega (arith, ho)) (omega (arith, hm))) (
        rw (small-gt limit 0 hm (omega arith)) (
          ground (
            arith,
            collect-count_up offset limit 0 [] list ho (omega (arith, hl)),
            count_up_lem matches offset limit 0 [] list h (λ i. refl),
          )))

  upper-fits :
      (l offset limit : ℕ)
      → l < 2 ^ 63
      → offset + limit < 2 ^ 63
      → upper_of l offset limit ≡ (if ltb l (offset + limit) then l else offset + limit)
  unfolding upper_of
  upper-fits l offset limit hl h =
      rw (add-fits offset limit (omega (arith, h))) (rw (small-gt (offset + limit) l h hl) refl)

  upper-over :
      (l offset limit : ℕ)
      → l < 2 ^ 63
      → 2 ^ 63 ≤ offset + limit
      → offset + limit < 2 ^ 64
      → upper_of l offset limit ≡ add_64 offset limit
  unfolding upper_of
  upper-over l offset limit hl h k =
      rw
        (gt-over (add_64 offset limit) l (omega (arith, add-fits offset limit k))
          (omega (arith, add-fits offset limit k)) hl)
        refl

  add-wraps : (a b : ℕ) → a < 2 ^ 63 → b < 2 ^ 64 → 2 ^ 64 ≤ a + b → add_64 a b < a
  add-wraps a b h k m = omega arith

  more_is_short :
      (l offset limit : ℕ)
      → l < 2 ^ 63
      → offset < 2 ^ 63
      → 2 ^ 63 ≤ limit
      → limit < 2 ^ 64
      → gt_64 (add_64 offset limit) l ≡ true
      → l < offset
  more_is_short l offset limit hl ho h hm more = elim (dec_lt (offset + limit) (2 ^ 64)) [
    | yes fits ↦
        (true_is_not_false (
          sym more
          ∙ gt-over (add_64 offset limit) l (omega (arith, add-fits offset limit fits))
              (omega (arith, add-fits offset limit fits)) hl))
    | no wraps ↦
        ltb_short l (add_64 offset limit) offset
          (sym (
              small-gt (add_64 offset limit) l
                (omega (arith, add-wraps offset limit ho hm (omega (arith, wraps)))) hl)
            ∙ more)
          (add-wraps offset limit ho hm (omega (arith, wraps)))
  ]
    where
      true_is_not_false : true ≡ false → l < offset
      true_is_not_false e = ground arith

      ltb_short : (a b c : ℕ) → ltb a b ≡ true → b < c → a < c
      ltb_short a b c e h = ground arith

  -- A negative limit.
  size-negative :
      (l offset limit : ℕ)
      → l < 2 ^ 63
      → offset < 2 ^ 63
      → 2 ^ 63 ≤ limit
      → limit < 2 ^ 64
      → gt_64 (sub_64 (upper_of l offset limit) offset) 0 ≡ false
  unfolding upper_of
  size-negative l offset limit hl ho h hm = elim (Bool-cases (gt_64 (add_64 offset limit) l)) [
    | inr no_more ↦
        rw no_more (rw (sub-from_over offset limit (omega (arith, ho)) hm) (gt-negative limit h))
    | inl more ↦ rw more (sub-negative l offset (more_is_short l offset limit hl ho h hm more) ho)
  ]

  least : (a b : ℕ) → (if ltb a b then a else b) ≤ a
  least a b = ground arith

  at_least_0-negative : (limit : ℕ) → 2 ^ 63 ≤ limit → at_least_0 limit ≡ 0
  at_least_0-negative limit h = ground arith

  at_least_0-fits : (limit : ℕ) → limit < 2 ^ 63 → at_least_0 limit ≡ limit
  at_least_0-fits limit h = ground arith

  -- A page with an offset that is not negative, where the list is no longer than a slice can be:
  -- the values that match, from the offset on, at most `limit` of them, and none for a negative
  -- limit. It panics exactly if the sum of the two overflows and the limit is above what a slice
  -- can have room for.
  pub do_list_func_lem :
      (max_cap : ℕ) (list : List KeyValue) (offset limit : ℕ)
      → offset < 2 ^ 63
      → limit < 2 ^ 64
      → length list < 2 ^ 63
      → length list ≤ max_cap
      → do_list_func matches max_cap list offset limit ≡ (
          if leb (2 ^ 63) (offset + at_least_0 limit) && ltb max_cap (at_least_0 limit)
          then none
          else some (take (at_least_0 limit) (drop offset (matching matches list))))
  do_list_func_lem max_cap list offset limit ho hm hl hc =
      do_list_func-page_to max_cap list offset limit ∙ elim (dec_lt limit (2 ^ 63)) [
        | no negative ↦
            page_to-negative max_cap list offset (upper_of (length list) offset limit)
              (size-negative (length list) offset limit hl ho (omega (arith, negative)) hm)
            ∙ rw (at_least_0-negative limit (omega (arith, negative))) (ground (arith, ho))
        | yes m ↦ elim (dec_lt (offset + limit) (2 ^ 63)) [
          | yes fits ↦
              ap (page_to max_cap list offset) (upper-fits (length list) offset limit hl fits)
              ∙ page_to-within max_cap list offset
                  (if ltb (length list) (offset + limit) then length list else offset + limit) ho hl
                  hc (ground (arith))
              ∙ ap some (clamped_lem matches list offset limit)
              ∙ rw (at_least_0-fits limit m) (ground (arith, fits))
          | no over ↦
              ap (page_to max_cap list offset) (
                upper-over (length list) offset limit hl (omega (arith, over))
                  (omega (arith, ho, m)))
              ∙ page_to-over max_cap list offset limit ho m hl (omega (arith, over, ho))
              ∙ rw (at_least_0-fits limit m) (ground (arith, over))
        ]
      ]
