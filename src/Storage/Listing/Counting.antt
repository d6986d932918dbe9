-- ===== src/Storage/Listing/Counting.antt =====
-- The loop of DoListFunc (services/storage/storage.go) on numbers that do not wrap.
use Prim.Native.String.{String}
use kapacitor.Prelude.{
  append_assoc, length-append, length-take, ap₂, length-drop, drop-eq_self, ℕ, append-nil, dec_lt,
  ℕ_discrete, inl, inr, zero, suc, ◌+◌, ◌-◌, ◌≤◌, ◌<◌, ◌≡◌, refl, ap, sym, ◌∙◌, List, [], ◌∷◌, ◌++◌,
  Bool, ltb, leb, not, ◌==◌, if◌then◌else◌, length, take, drop, arith, Bool-cases,
}
use kapacitor.Storage.Listing.{matching}
use kapacitor.Storage.Kinds.{KeyValue}

module _ (matches : String → Bool) where
  -- The loop over natural numbers.
  unfoldable pub count_up : (offset size i : ℕ) → List String → List KeyValue → List String
  count_up offset size i found [] = found
  count_up offset size i found (kv ∷ list) =
      let skipped = count_up offset size i found list in
      let before = count_up offset size (i + 1) found list in
      let found' = found ++ kv.value ∷ [] in
      let on = count_up offset size (i + 1) found' list in
      if not (matches kv.value)
      then skipped
      else if leb (i + 1) offset
      then before
      else if length found' == size
      then found'
      else on

  length-matching : (list : List KeyValue) → length (matching matches list) ≤ length list
  length-matching [] = omega arith
  length-matching (kv ∷ list) = ground (arith, length-matching list)

  take-drop-nil : (m n : ℕ) → take m (drop {A = String} n []) ≡ []
  take-drop-nil zero n = refl
  take-drop-nil (suc m) zero = refl
  take-drop-nil (suc m) (suc n) = refl

  take-cons :
      (n : ℕ) (x : String) (xs : List String) → 0 < n → take n (x ∷ xs) ≡ x ∷ take (n - 1) xs
  take-cons zero x xs h = elim h [ ]
  take-cons (suc n) x xs h = ap (λ k. x ∷ take k xs) (omega arith)

  drop-cons : (n : ℕ) (x : String) (xs : List String) → 0 < n → drop n (x ∷ xs) ≡ drop (n - 1) xs
  drop-cons zero x xs h = elim h [ ]
  drop-cons (suc n) x xs h = ap (λ k. drop k xs) (omega arith)

  -- What the loop has collected is a part of the page, and it collects the rest of it.
  pub count_up_lem :
      (offset size i : ℕ) (found : List String) (list : List KeyValue)
      → length found < size
      → (i < offset → found ≡ [])
      → count_up offset size i found list
        ≡ found ++ take (size - length found) (drop (offset - i) (matching matches list))
  unfolding count_up
  count_up_lem offset size i found [] room early =
      sym (append-nil found)
      ∙ ap (λ t. found ++ t) (sym (take-drop-nil (size - length found) (offset - i)))
  count_up_lem offset size i found (kv ∷ list) room early = elim (Bool-cases (matches kv.value)) [
    | inr miss ↦ rw miss (count_up_lem offset size i found list room early)
    | inl hit ↦ rw hit (elim (dec_lt i offset) [
      | yes before ↦ ground (
        arith,
        count_up_lem offset size (i + 1) found list room (λ h. early before),
        ap (λ (t : List String). found ++ take (size - length found) t) (skipped before),
      )
      | no from ↦ elim (ℕ_discrete (length found + 1) size) [
        | yes full ↦ ground (arith, length-append found (kv.value ∷ []), last_one from full)
        | no other ↦ ground (
          arith,
          length-append found (kv.value ∷ []),
          count_up_lem offset size (i + 1) (found ++ kv.value ∷ []) list
              (omega (arith, length-append {0} found (kv.value ∷ []))) (λ h. absurd (omega arith)),
          one_more from,
        )
      ]
    ])
  ]
    where
      skipped :
          i < offset
          → drop (offset - i) (kv.value ∷ matching matches list)
            ≡ drop (offset - (i + 1)) (matching matches list)
      skipped h =
          drop-cons (offset - i) kv.value (matching matches list) (omega arith)
          ∙ ap (λ k. drop k (matching matches list)) (minus_one)
        where
          minus_one : offset - i - 1 ≡ offset - (i + 1)
          minus_one = omega arith

      reached :
          ¬ (i < offset)
          → drop (offset - i) (kv.value ∷ matching matches list) ≡ kv.value ∷ matching matches list
      reached h = drop-eq_self (kv.value ∷ matching matches list) (offset - i) (omega arith)

      last_one :
          ¬ (i < offset)
          → length found + 1 ≡ size
          → take (size - length found) (drop (offset - i) (kv.value ∷ matching matches list))
            ≡ kv.value ∷ []
      last_one h full = ap₂ (λ (k : ℕ) (t : List String). take k t) one_left (reached h)
        where
          one_left : size - length found ≡ 1
          one_left = omega arith

      one_more :
          ¬ (i < offset)
          → found
              ++ take (size - length found) (drop (offset - i) (kv.value ∷ matching matches list))
            ≡ (found ++ kv.value ∷ [])
              ++ take
                  (size - length (found ++ kv.value ∷ []))
                  (drop (offset - (i + 1)) (matching matches list))
      one_more h =
          ap (λ t. found ++ t)
            (ap (take (size - length found)) (reached h)
              ∙ take-cons (size - length found) kv.value (matching matches list) (omega arith)
              ∙ ap (λ t. kv.value ∷ t)
                  (ap₂ (λ (k : ℕ) (t : List String). take k t) fewer
                    (sym (drop-eq_self (matching matches list) (offset - (i + 1)) (omega arith)))))
          ∙ sym (
              append_assoc found (kv.value ∷ []) (
                take (size - length (found ++ kv.value ∷ []))
                  (drop (offset - (i + 1)) (matching matches list))))
        where
          fewer : size - length found - 1 ≡ size - length (found ++ kv.value ∷ [])
          fewer = omega (arith, length-append {0} found (kv.value ∷ []))

  take-of_length_le : (n : ℕ) (xs : List String) → length xs ≤ n → take n xs ≡ xs
  take-of_length_le zero [] h = refl
  take-of_length_le zero (x ∷ xs) h = absurd (omega arith)
  take-of_length_le (suc n) [] h = refl
  take-of_length_le (suc n) (x ∷ xs) h = ap (λ t. x ∷ t) (take-of_length_le n xs (omega arith))

  -- The window, clamped to the length of the whole list, matches or not.
  pub clamped_lem :
      (list : List KeyValue) (offset limit : ℕ)
      → let upper = if ltb (length list) (offset + limit) then length list else offset + limit in
        (if upper - offset == 0 then [] else count_up offset (upper - offset) 0 [] list)
        ≡ take limit (drop offset (matching matches list))
  clamped_lem list offset limit = elim (dec_lt (length list) (offset + limit)) [
    | yes clamped ↦ elim (dec_lt offset (length list)) [
      | yes inside ↦ ground (
        arith,
        count_up_lem offset (length list - offset) 0 [] list (omega arith) (λ h. refl),
        take-of_length_le (length list - offset) (drop offset (matching matches list))
            (omega (arith, fits)),
        take-of_length_le limit (drop offset (matching matches list)) (omega (arith, fits)),
      )
      | no past ↦ ground (
        arith,
        nil (take limit (drop offset (matching matches list)))
            (omega (arith, fits, length-take {0} limit (drop offset (matching matches list)))),
      )
    ]
    | no whole ↦ elim (ℕ_discrete limit 0) [
      | yes e ↦ ground (arith, ap (λ (n : ℕ). take n (drop offset (matching matches list))) e)
      | no e ↦ ground (arith, count_up_lem offset limit 0 [] list (omega arith) (λ h. refl), same)
    ]
  ]
    where
      fits : length (drop offset (matching matches list)) ≤ length list - offset
      fits = omega (arith, length-drop {0} offset (matching matches list), length-matching list)

      nil : (xs : List String) → length xs ≡ 0 → xs ≡ []
      nil [] e = refl
      nil (x ∷ xs) e = absurd (omega arith)

      same : offset + limit - offset ≡ limit
      same = omega arith
