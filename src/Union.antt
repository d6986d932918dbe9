-- ===== src/Union.antt =====
-- UnionNode of union.go: the messages of its parents in the order of time.
pub mod Drain
pub mod Hold
use kapacitor.Prelude.{
  ℕ, zero, suc, ◌+◌, Bool, true, false, not, ◌&&◌, ◌||◌, if◌then◌else◌, ltb, ◌==◌, List, [], ◌∷◌,
  ◌++◌, Option, none, some, length, get_elem?, set,
}

-- One parent: the messages that wait, and the low mark. A time is in nanoseconds since the zero
-- time, which itself, 0, marks that there is none.
pub record Source (M : Type 0) : Type 0 where
  pub values : List M
  pub low_mark : ℕ

-- What the loop over the sources finds: the mark, and how many sources have a low mark.
pub record Marks : Type 0 where
  pub mark : ℕ
  pub valid : ℕ

abbrev pub earlier : ℕ → ℕ → ℕ
earlier mark t = if (mark == 0) || ltb t mark then t else mark

abbrev pub waiting : {M : Type 0} → List (Source M) → ℕ
waiting [] = 0
waiting (s ∷ ss) = length s.values + waiting ss

module _ {M : Type 0} (time : M → ℕ) where
  -- The low mark of a source, and what its first message makes of the mark.
  abbrev pub source_mark : Source M → ℕ
  source_mark s = elim s.values [ [] ↦ s.low_mark | m ∷ ms ↦ time m ]

  abbrev pub head_mark : ℕ → Source M → ℕ
  head_mark mark s = elim s.values [ [] ↦ mark | m ∷ ms ↦ earlier mark (time m) ]

  pub see : (drain : Bool) → Source M → Marks → Marks
  see drain s k =
      let mark = head_mark k.mark s in
      let t = source_mark s in
      if t == 0
      then record { mark = mark; valid = k.valid }
      else record { mark = if drain then mark else earlier mark t; valid = k.valid + 1 }

  pub see_all : (drain : Bool) → List (Source M) → Marks → Marks
  see_all drain [] k = k
  see_all drain (s ∷ ss) k = see_all drain ss (see drain s k)

  -- `n.lowMarks[i] = sourceMark`
  pub keep_marks : List (Source M) → List (Source M)
  keep_marks [] = []
  keep_marks (s ∷ ss) = record s { low_mark = source_mark s } ∷ keep_marks ss

  -- `emit` forwards a message, and may fail.
  module _ {S E : Type 0} (emit : M → S → S × Option E) where
    -- The messages of one source up to the mark: those left, and the first error.
    pub emit_values : (mark : ℕ) → List M → S → List M × (S × Option E)
    emit_values mark [] s = ([], (s, none))
    emit_values mark (m ∷ ms) s =
        let (s', e) = emit m s in
        let rest = emit_values mark ms s' in
        if ltb mark (time m)
        then (m ∷ ms, (s, none))
        else elim e [ none ↦ rest | some x ↦ (m ∷ ms, (s', some x)) ]

    -- All sources. A source at which an error comes up keeps its messages.
    pub emit_sources : (mark : ℕ) → List (Source M) → S → List (Source M) × (S × Option E)
    emit_sources mark [] s = ([], (s, none))
    emit_sources mark (source ∷ sources) s =
        let (left, (s', e)) = emit_values mark source.values s in
        let rest = emit_sources mark sources s' in
        elim e [
          | none ↦ (record source { values = left } ∷ rest.0, rest.1)
          | some x ↦ (source ∷ sources, (s', some x))
        ]

    -- emitReady: its loop ends with a round in which nothing is emitted, so that as many messages
    -- wait as before; `rounds` bounds its loop, and none is returned where it is not enough.
    pub emit_ready :
        (drain : Bool) (rounds : ℕ)
        → List (Source M)
        → S
        → Option (List (Source M) × (S × Option E))
    emit_ready drain zero sources s = none
    emit_ready drain (suc rounds) sources s =
        let marks = see_all drain sources (record { mark = 0; valid = 0 }) in
        let sources' = keep_marks sources in
        let r = emit_sources marks.mark sources' s in
        let again = emit_ready drain rounds r.0 r.1.0 in
        if not drain && not (marks.valid == length sources)
        then some (sources', (s, none))
        else elim r.1.1 [
          | some x ↦ some (r.0, (r.1.0, some x))
          | none ↦ if ltb (waiting r.0) (waiting sources') then again else some r
        ]

    -- BufferedBatch, Point and Barrier of the source `src`; the message has its new name already. A
    -- source that is not there would panic.
    pub receive :
        (src : ℕ)
        → M
        → (rounds : ℕ) → List (Source M)
        → S
        → Option (List (Source M) × (S × Option E))
    receive src m rounds sources s = elim (get_elem? sources src) [
      | none ↦ none
      | some source ↦
          emit_ready false rounds
            (set sources src (record source { values = source.values ++ m ∷ [] })) s
    ]

    pub finish : (rounds : ℕ) → List (Source M) → S → Option (List (Source M) × (S × Option E))
    finish rounds sources s = emit_ready true rounds sources s
