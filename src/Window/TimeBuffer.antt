-- ===== src/Window/TimeBuffer.antt =====
-- windowTimeBuffer of window.go: the growing ring buffer of a window by time.
pub mod Holding
pub mod Insert
pub mod Purge
use kapacitor.Prelude.{
  ℕ, zero, suc, ◌+◌, ◌-◌, ◌*◌, List, [], ◌∷◌, ◌++◌, Option, none, some, Bool, true, false, ltb,
  ◌==◌, ◌&&◌, if◌then◌else◌, length, set, take, drop, replicate, slice, get_elem?,
}
use kapacitor.Window.Slots.{fill, copy_to}

-- `window` is the slice up to its length, `cap` its capacity. The slots between the two are never
-- read. The points are moved and never changed, so their type `P` is any type.
pub record TimeBuffer (P : Type 0) : Type 0 where
  pub window : List (Option P)
  pub cap : ℕ
  pub start : ℕ
  pub stop : ℕ
  pub size : ℕ

module _ {P : Type 0} where
  abbrev pub empty : TimeBuffer P
  empty = record { window = []; cap = 0; start = 0; stop = 0; size = 0 }

  -- `copy(w[at:], xs)`: the slots of `w` from `at` on are overwritten, as far as both reach.
  abbrev pub copy_at : ℕ → List (Option P) → List (Option P) → List (Option P)
  copy_at zero [] w = w
  copy_at zero (x ∷ xs) [] = []
  copy_at zero (x ∷ xs) (y ∷ w) = x ∷ copy_at zero xs w
  copy_at (suc i) xs [] = []
  copy_at (suc i) xs (y ∷ w) = y ∷ copy_at i xs w

  -- The fields of `b` once its points stand at the beginning of `w`.
  abbrev pub rebased : TimeBuffer P → List (Option P) → TimeBuffer P
  rebased b w = record {
    window = w;
    cap = 2 * (b.size + 1);
    start = 0;
    stop = b.size;
    size = b.size;
  }

  -- `if b.size == cap(b.window)`: move to a slice of twice the capacity. `none` is the panic on a
  -- copy that moved another number of points than `size`.
  pub grow : TimeBuffer P → Option (TimeBuffer P)
  grow b =
      let fresh = replicate (b.size + 1) none in
      if b.size == 0
      then some (rebased b fresh)
      else if ltb b.start b.stop
      then (let live = slice b.start b.stop b.window in
          if length live == b.size then some (rebased b (copy_at 0 live fresh)) else none)
      else (let older = drop b.start b.window in
          let newer = take b.stop b.window in
          if (length older + length newer) == b.size
          then some (rebased b (copy_at (b.size - b.start) newer (copy_at 0 older fresh)))
          else none)

  -- The rest of `insert`: the wrap of `stop`, and the write.
  pub place : P → TimeBuffer P → Option (TimeBuffer P)
  place p b =
      let stop = if length b.window == b.cap && b.stop == length b.window then 0 else b.stop in
      if stop == length b.window
      then some (record b { window = b.window ++ some p ∷ []; size = b.size + 1; stop = stop + 1 })
      else if ltb stop (length b.window)
      then some
          (record b { window = set b.window stop (some p); size = b.size + 1; stop = stop + 1 })
      else none

  pub insert : P → TimeBuffer P → Option (TimeBuffer P)
  insert p b =
      if b.size == b.cap then elim (grow b) [ none ↦ none | some b' ↦ place p b' ] else place p b

  -- The slots of a batch, a copy of the live points, oldest first.
  pub points : TimeBuffer P → Option (List (Option P))
  points b =
      if b.size == 0
      then some []
      else if ltb b.start b.stop
      then fill b.size (slice b.start b.stop b.window)
      else fill b.size (drop b.start b.window ++ take b.stop b.window)

  module _ (include : P → Bool) where
    -- `for ; i < stop; i++ { if include(b.window[i].Time()) { break } }`, with `rounds` rounds left
    -- until `stop`: the index where the loop ends. `none` is the panic on an index out of range or
    -- a nil slot.
    pub skip : (window : List (Option P)) (rounds i : ℕ) → Option ℕ
    skip window zero i = some i
    skip window (suc rounds) i = elim (get_elem? window i) [
      | some (some p) ↦ elim (include p) [ true ↦ some i | false ↦ skip window rounds (i + 1) ]
      | _ ↦ none
    ]

    pub purge : TimeBuffer P → Option (TimeBuffer P)
    purge b =
        let l = length b.window in
        if l == 0
        then some b
        else if ltb b.start b.stop
        then elim (skip b.window (b.stop - b.start) b.start) [
          | none ↦ none
          | some start ↦ some (record b { start = start; size = b.stop - start })
        ]
        else elim (get_elem? b.window (l - 1)) [
          | some (some newest) ↦ elim (include newest) [
            | true ↦ elim (skip b.window (l - b.start) b.start) [
              | none ↦ none
              | some start ↦ some (record b { start = start; size = l - start + b.stop })
            ]
            | false ↦ elim (skip b.window b.stop 0) [
              | none ↦ none
              | some start ↦ some (record b { start = start; size = b.stop - start })
            ]
          ]
          | _ ↦ none
        ]
