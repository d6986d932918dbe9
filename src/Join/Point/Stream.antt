-- ===== src/Join/Point/Stream.antt =====
-- A group of a join node of streams (join.go), from its first message to Finish.
use kapacitor.Prelude.{
  ℕ, ◌+◌, ◌≡◌, refl, sym, ap, ◌||◌, List, [], ◌∷◌, ◌++◌, append_assoc, append-nil, Option, none,
  some, if◌then◌else◌, length, All, arith, inl, inr,
}
use kapacitor.Prelude.Dict.{Dict}
use kapacitor.Join.{JoinSet, ready}
use kapacitor.Join.Rounds.{Own}
use kapacitor.Join.Forwarded.{Follows}
use kapacitor.Join.Point.{Naming, Joined, joined, join_into_point, emit_joined_set}
use kapacitor.Join.Point.Laws.{filled, join_cases}

module _ {P V : Type 0} (fields_of : P → Dict V) (c : Naming V) where
  abbrev Points : Type 0
  Points = List (ℕ × Dict V)

  abbrev pub emit_list : Option (List (ℕ × Dict V)) → List (JoinSet P) → Option (List (ℕ × Dict V))
  emit_list s [] = s
  emit_list s (j ∷ js) = emit_list (emit_joined_set fields_of c j s).0 js

  never_fails :
      (j : JoinSet P) (s : Option (List (ℕ × Dict V))) → (emit_joined_set fields_of c j s).1 ≡ none
  unfolding emit_joined_set
  never_fails j none = refl
  never_fails j (some out) = refl

  emit_list-append :
      (s : Option (List (ℕ × Dict V))) (js : List (JoinSet P)) (j : JoinSet P)
      → emit_list s (js ++ j ∷ []) ≡ (emit_joined_set fields_of c j (emit_list s js)).0
  emit_list-append s [] j = refl
  emit_list-append s (k ∷ js) j = emit_list-append (emit_joined_set fields_of c k s).0 js j

  pub follows : Follows (emit_joined_set fields_of c) (emit_list (some []))
  follows j out =
      ground (arith, emit_list-append (some []) out j, never_fails j (emit_list (some []) out))

  -- The points of the sets that join, in their order, and how many join.
  abbrev pub add_joined : Joined V → List (ℕ × Dict V) → List (ℕ × Dict V)
  add_joined (joined t fields) rest = (t, fields) ∷ rest
  add_joined _ rest = rest

  abbrev pub points_of : List (JoinSet P) → List (ℕ × Dict V)
  points_of [] = []
  points_of (j ∷ js) = add_joined (join_into_point fields_of c j) (points_of js)

  abbrev pub joining : List (JoinSet P) → ℕ
  joining [] = 0
  joining (j ∷ js) = if filled c.fill || ready j then joining js + 1 else joining js

  pub emit_list_points :
      (n : ℕ) (time : P → ℕ) (js : List (JoinSet P)) (out : List (ℕ × Dict V))
      → All (Own n time) js
      → (emit_list (some out) js ≡ some (out ++ points_of js))
        × (length (points_of js) ≡ joining js)
  unfolding emit_joined_set
  emit_list_points n time [] out h = (ap some (sym (append-nil out)), refl)
  emit_list_points n time (j ∷ js) out (h, hs) = elim (join_cases fields_of c n time j.time j h) [
    | inl (e, (fields, eq)) ↦
        let (ih, len) = emit_list_points n time js (out ++ (j.time, fields) ∷ []) hs in
        (
          ground (arith, eq, ih, append_assoc out ((j.time, fields) ∷ []) (points_of js)),
          ground (arith, e, eq, len),
        )
    | inr (e, eq) ↦
        let (ih, len) = emit_list_points n time js out hs in
        (ground (arith, eq, ih), ground (arith, e, eq, len))
  ]
