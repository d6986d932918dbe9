-- ===== src/Alert/Inhibit/Laws.antt =====
-- What IsInhibited (alert/inhibit.go) answers after any sequence of operations.
use Prim.Native.String.{String}
use text.Mathlib.TextEquality.{eq_iff}
use kapacitor.Prelude.{
  refl, subst, sym, ◌∙◌, ap, ℕ, ◌+◌, ◌-◌, ◌<◌, ◌≡◌, inl, inr, none, some, arith, true, Bool,
  Bool-cases, Option-cases, List, [], ◌∷◌, ◌++◌, ◌==◌, if◌then◌else◌, ◌↔◌,
}
use kapacitor.Prelude.Dict.{Dict, lookup-insert}
use kapacitor.Alert.Inhibit.{
  tags_match, InhibitorLookup, Inhibitor, registered, add_inhibitor, remove_inhibitor,
  set_inhibited, is_inhibited, inhibitor_is_inhibited, any_inhibited, cut,
}

pub data Operation : Type 0 where
  add : ℕ → Operation
  remove : ℕ → Operation
  assign : ℕ → Bool → Operation

abbrev pub perform : Operation → InhibitorLookup → InhibitorLookup
perform (add i) l = add_inhibitor i l
perform (remove i) l = remove_inhibitor i l
perform (assign i b) l = set_inhibited i b l

abbrev pub perform_all : List Operation → InhibitorLookup → InhibitorLookup
perform_all [] l = l
perform_all (op ∷ ops) l = perform_all ops (perform op l)

-- How often `i` is registered, and whether it inhibits, as the operations about `i` tell.
abbrev pub balance : ℕ → List Operation → ℕ → ℕ
balance i [] n = n
balance i (add j ∷ ops) n = balance i ops (if j == i then n + 1 else n)
balance i (remove j ∷ ops) n = balance i ops (if j == i then n - 1 else n)
balance i (assign j b ∷ ops) n = balance i ops n

abbrev pub flag : ℕ → List Operation → Bool → Bool
flag i [] f = f
flag i (add j ∷ ops) f = flag i ops f
flag i (remove j ∷ ops) f = flag i ops f
flag i (assign j b ∷ ops) f = flag i ops (if j == i then b else f)

abbrev pub times : ℕ → List ℕ → ℕ
times i [] = 0
times i (j ∷ js) = if j == i then times i js + 1 else times i js

-- How often `i` is registered for its category.
abbrev pub times_of : ℕ → InhibitorLookup → ℕ
times_of i l = times i (registered (l.heap i).category l.inhibitors)

times-append :
    (i j : ℕ) (js : List ℕ)
    → times i (js ++ j ∷ []) ≡ (if j == i then times i js + 1 else times i js)
times-append i j [] = ground arith
times-append i j (k ∷ js) = ground (arith, times-append i j js)

times-cut :
    (i j : ℕ) (js : List ℕ)
    → elim (cut j js) [ none ↦ times i js | some others ↦ times i others ]
      ≡ (if j == i then times i js - 1 else times i js)
unfolding cut
times-cut i j [] = ground arith
times-cut i j (k ∷ js) = ground (arith, times-cut i j js)

times_of-add :
    (i j : ℕ) (l : InhibitorLookup)
    → times_of i (add_inhibitor j l) ≡ (if j == i then times_of i l + 1 else times_of i l)
unfolding add_inhibitor
times_of-add i j l =
    let a = (l.heap j).category in
    let b = (l.heap i).category in
    let js = registered a l.inhibitors in
    grind (arith, lookup-insert a b (js ++ j ∷ []) l.inhibitors, eq_iff a b, times-append i j js)

times_of-remove :
    (i j : ℕ) (l : InhibitorLookup)
    → times_of i (remove_inhibitor j l) ≡ (if j == i then times_of i l - 1 else times_of i l)
unfolding remove_inhibitor
times_of-remove i j l =
    let a = (l.heap j).category in
    let b = (l.heap i).category in
    let js = registered a l.inhibitors in
    elim (Option-cases (cut j js)) [
      | inl e ↦ grind (arith, e, times-cut i j js, eq_iff a b)
      | inr (others, e) ↦
          grind (arith, e, times-cut i j js, lookup-insert a b others l.inhibitors, eq_iff a b)
    ]

perform-times_of :
    (ops : List Operation) (i : ℕ) (l : InhibitorLookup)
    → times_of i (perform_all ops l) ≡ balance i ops (times_of i l)
unfolding set_inhibited
perform-times_of [] i l = refl
perform-times_of (add j ∷ ops) i l =
    perform-times_of ops i (add_inhibitor j l) ∙ ap (balance i ops) (times_of-add i j l)
perform-times_of (remove j ∷ ops) i l =
    perform-times_of ops i (remove_inhibitor j l) ∙ ap (balance i ops) (times_of-remove i j l)
perform-times_of (assign j b ∷ ops) i l =
    perform-times_of ops i (set_inhibited j b l) ∙ ap (balance i ops) (grind arith)

add-heap : (j : ℕ) (l : InhibitorLookup) → (add_inhibitor j l).heap ≡ l.heap
unfolding add_inhibitor
add-heap j l = refl

remove-heap : (j : ℕ) (l : InhibitorLookup) → (remove_inhibitor j l).heap ≡ l.heap
unfolding remove_inhibitor
remove-heap j l = elim (Option-cases (cut j (registered (l.heap j).category l.inhibitors))) [
  | inl e ↦ ground (arith, e)
  | inr (others, e) ↦ ground (arith, e)
]

-- What the operations leave of an inhibitor.
perform-heap :
    (ops : List Operation) (i : ℕ) (l : InhibitorLookup)
    → (perform_all ops l).heap i ≡ record (l.heap i) { inhibited = flag i ops (l.heap i).inhibited }
unfolding set_inhibited
perform-heap [] i l = refl
perform-heap (add j ∷ ops) i l =
    perform-heap ops i (add_inhibitor j l)
    ∙ ap (λ h. record (h i) { inhibited = flag i ops (h i).inhibited }) (add-heap j l)
perform-heap (remove j ∷ ops) i l =
    perform-heap ops i (remove_inhibitor j l)
    ∙ ap (λ h. record (h i) { inhibited = flag i ops (h i).inhibited }) (remove-heap j l)
perform-heap (assign j b ∷ ops) i l = perform-heap ops i (set_inhibited j b l) ∙ ground arith

equal : (j i : ℕ) → (j == i) ≡ true → j ≡ i
equal j i e = ground (arith, e)

any_inhibited_lem :
    (heap : ℕ → Inhibitor) (js : List ℕ) (category : String) (tags : Dict String)
    → any_inhibited heap js category tags ≡ true
      ↔ ((i : ℕ) × ((0 < times i js) × (inhibitor_is_inhibited (heap i) category tags ≡ true)))
unfolding any_inhibited
any_inhibited_lem heap js category tags = (forth js, λ w. back js w.0 w.1.0 w.1.1)
  where
    forth :
        (js : List ℕ)
        → any_inhibited heap js category tags ≡ true
        → (i : ℕ) × ((0 < times i js) × (inhibitor_is_inhibited (heap i) category tags ≡ true))
    forth [] h = cc
    forth (j ∷ js) h = elim (Bool-cases (inhibitor_is_inhibited (heap j) category tags)) [
      | inl t ↦ (j, (ground arith, t))
      | inr f ↦ let (i, (n, t)) = forth js (ground (arith, h, f)) in (i, (ground (arith, n), t))
    ]

    back :
        (js : List ℕ) (i : ℕ)
        → 0 < times i js
        → inhibitor_is_inhibited (heap i) category tags ≡ true
        → any_inhibited heap js category tags ≡ true
    back [] i n t = ground (arith, n)
    back (j ∷ js) i n t = elim (Bool-cases (j == i)) [
      | inl e ↦
          ground (arith, ap (λ k. inhibitor_is_inhibited (heap k) category tags) (equal j i e), t)
      | inr e ↦ ground (arith, back js i (ground (arith, n, e)) t)
    ]

abbrev pub Inhibits : String → Dict String → Inhibitor → Type 0
Inhibits category tags h =
    (h.inhibited ≡ true) × ((h.category ≡ category) × (tags_match h.tags tags ≡ true))

inhibits_lem :
    (category : String) (tags : Dict String) (h : Inhibitor)
    → inhibitor_is_inhibited h category tags ≡ true ↔ Inhibits category tags h
unfolding inhibitor_is_inhibited
inhibits_lem category tags h = (
  λ t. (ground (arith, t), (ground (arith, t, eq_iff category h.category), ground (arith, t))),
  λ w. let (f, (c, ok)) = w in ground (arith, f, c, ok, eq_iff category h.category),
)

-- After any sequence of operations, a category and tags are inhibited exactly if there is an
-- inhibitor of that category that is registered (it was added more often than removed, where a
-- removal of what is not registered counts for nothing), whose last setting is to inhibit, and
-- whose tags all stand with the same values among the tags.
pub is_inhibited-perform_all :
    (ops : List Operation) (category : String) (tags : Dict String) (l : InhibitorLookup)
    → is_inhibited category tags (perform_all ops l) ≡ true ↔ (
        (i : ℕ) × ((0 < balance i ops (times_of i l))
          × Inhibits category tags
              (record (l.heap i) { inhibited = flag i ops (l.heap i).inhibited })))
unfolding is_inhibited
is_inhibited-perform_all ops category tags l = (
  λ h.
      let (i, (n, t)) = all.0 h in
      let w = (inhibits_lem category tags (m.heap i)).0 t in
      (
        i,
        (
          subst (λ n. 0 < n) (counts i w.1.0) n,
          subst (Inhibits category tags) (perform-heap ops i l) w,
        ),
      ),
  λ w.
      let i = w.0 in
      let v = subst (Inhibits category tags) (sym (perform-heap ops i l)) w.1.1 in
      all.1 (
        i,
        (
          subst (λ n. 0 < n) (sym (counts i v.1.0)) w.1.0,
          (inhibits_lem category tags (m.heap i)).1 v,
        ),
      ),
)
  where
    m : InhibitorLookup
    m = perform_all ops l

    all : any_inhibited m.heap (registered category m.inhibitors) category tags ≡ true ↔ (
        (i : ℕ) × ((0 < times i (registered category m.inhibitors))
          × (inhibitor_is_inhibited (m.heap i) category tags ≡ true)))
    all = any_inhibited_lem m.heap (registered category m.inhibitors) category tags

    counts :
        (i : ℕ)
        → (m.heap i).category ≡ category
        → times i (registered category m.inhibitors) ≡ balance i ops (times_of i l)
    counts i c = ap (λ k. times i (registered k m.inhibitors)) (sym c) ∙ perform-times_of ops i l
