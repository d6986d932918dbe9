-- ===== src/Alert/State/Batch.antt =====
-- BufferedBatch of alertState (alert.go): one event for a whole batch of points.
use Prim.Native.String.{String}
use kapacitor.Prelude.{
  ℕ, ◌<◌, ◌≤◌, ◌≡◌, ap, min, max, List, [], ◌∷◌, Option, none, some, Bool, true, false, not, ◌&&◌,
  ◌||◌, if◌then◌else◌, ◌==◌, ltb, arith, dec_lt,
}
use kapacitor.Prelude.Int.{ℤ}
use kapacitor.Alert.Level.{Level, ok, critical, determine_level}
use kapacitor.Alert.Level.Laws.{determine_level-le}
use kapacitor.Alert.State.{
  Floats, AlertNode, AlertState, current_level, triggered, duration, add_event, point, Reply,
  failed, quiet, emit,
}

-- The begin message of a batch, with what the templates make of its name, group and tags.
pub record Begin (P : Type 0) : Type 0 where
  pub time : ℕ
  pub render_id : Option String
  -- The message, from the fields of the highest point.
  pub render_message : P → Level → (duration : ℤ) → Option String

-- The levels of the points so far, and the first point of the highest level.
pub record Scan (P : Type 0) : Type 0 where
  pub lowest_level : Level
  pub highest_level : Level
  pub highest_point : Option P

-- `l > highestLevel || highestPoint == nil`.
abbrev pub leads {ℓ} : {P : Type ℓ} → Option P → (highest_level l : Level) → Bool
leads none highest_level l = true
leads (some _) highest_level l = ltb highest_level l

module _ (fl : Floats) {P : Type 0} (n : AlertNode fl P) where
  -- One round of the loop over the points.
  abbrev pub scan_point : (current : Level) → P → Scan P → Scan P
  scan_point current p s =
      let l = determine_level n.levels p current in
      let higher = leads s.highest_point s.highest_level l in
      record {
        lowest_level = if ltb l s.lowest_level then l else s.lowest_level;
        highest_level = if higher then l else s.highest_level;
        highest_point = if higher then some p else s.highest_point;
      }

  pub scan : (current : Level) → List P → Scan P → Scan P
  scan current [] s = s
  scan current (p ∷ ps) s = scan current ps (scan_point current p s)

  pub buffered_batch : Begin P → List P → AlertState → AlertState × Reply fl n
  buffered_batch begin ps a = elim begin.render_id [
    | none ↦ (a, failed)
    | some id ↦
        let s =
          scan (current_level a) ps
            (record { lowest_level = critical; highest_level = ok; highest_point = none }) in
        elim s.highest_point [
          | none ↦ (a, quiet)
          | some highest_point ↦
              let l = if not n.all_flag then s.highest_level else s.lowest_level in
              let t = if n.all_flag || l == ok then begin.time else n.time highest_point in
              let a' = add_event fl n t l a in
              if not (
                (a'.changed && l == ok)
                || (not (l == ok)
                    && not (
                        (n.use_flapping && a'.flapping)
                        || (n.is_state_changes_only && (not a'.changed && not a'.expired)))))
              then (a', quiet)
              else (let a'' = triggered t a' in
                  if n.no_recoveries && l == ok then (a'', quiet) else (
                    a'',
                    elim (begin.render_message highest_point l (duration a'')) [
                      | none ↦ failed
                      | some message ↦ emit (record {
                        id = id;
                        message = message;
                        time = t;
                        duration = duration a'';
                        level = l;
                      })
                    ],
                  ))
        ]
  ]

  module _ (current : Level) where
    abbrev level_of : P → Level
    level_of p = determine_level n.levels p current

    -- The lowest and the highest level of some points, and the first point of a level.
    abbrev pub lowest : List P → Level
    lowest [] = critical
    lowest (p ∷ ps) = min (level_of p) (lowest ps)

    abbrev pub highest : List P → Level
    highest [] = ok
    highest (p ∷ ps) = max (level_of p) (highest ps)

    abbrev pub first_at : Level → List P → Option P
    first_at l [] = none
    first_at l (p ∷ ps) = let rest = first_at l ps in if level_of p == l then some p else rest

    lowest-le : (ps : List P) → lowest ps ≤ critical
    lowest-le [] = omega arith
    lowest-le (p ∷ ps) = omega (arith, lowest-le ps)

    abbrev lower : P → Level → Level
    lower p lo = if ltb (level_of p) lo then level_of p else lo

    bound : (p : P) (lo : Level) → lo ≤ critical → lower p lo ≤ critical
    bound p lo h = ground (arith, h)

    same_max :
        (p : P) (ps : List P)
        → level_of p < highest ps
        → first_at (max (level_of p) (highest ps)) ps ≡ first_at (highest ps) ps
    same_max p ps h = ap (λ l. first_at l ps) (ground (arith, h))

    scan-some :
        (ps : List P) (lo hi : Level) (q : P)
        → lo ≤ critical
        → scan current ps (record { lowest_level = lo; highest_level = hi; highest_point = some q })
          ≡ record {
            lowest_level = min lo (lowest ps);
            highest_level = max hi (highest ps);
            highest_point = if ltb hi (highest ps) then first_at (highest ps) ps else some q;
          }
    unfolding scan
    scan-some [] lo hi q h = ground arith
    scan-some (p ∷ ps) lo hi q h = elim (dec_lt hi (level_of p)) [
      | yes up ↦
          ground (arith, up, scan-some ps (lower p lo) (level_of p) p (bound p lo h), same_max p ps)
      | no down ↦ ground (arith, down, scan-some ps (lower p lo) hi q (bound p lo h), same_max p ps)
    ]

    -- The loop of BufferedBatch over a batch with a point: it finds the lowest level of all points,
    -- the highest level, and the first point of the highest level, the level of every point being
    -- determined from the level before the batch.
    pub scan_lem :
        (p : P) (ps : List P)
        → scan current
            (p ∷ ps)
            (record { lowest_level = critical; highest_level = ok; highest_point = none })
          ≡ record {
            lowest_level = lowest (p ∷ ps);
            highest_level = highest (p ∷ ps);
            highest_point = first_at (highest (p ∷ ps)) (p ∷ ps);
          }
    unfolding scan
    scan_lem p ps = ground (
      arith,
      scan-some ps (lower p critical) (level_of p) p (bound p critical (omega arith)),
      same_max p ps,
      lowest-le ps,
    )

  scan_one :
      (current : Level) (p : P)
      → level_of current p ≤ critical
      → scan current
          (p ∷ [])
          (record { lowest_level = critical; highest_level = ok; highest_point = none })
        ≡ record {
          lowest_level = level_of current p;
          highest_level = level_of current p;
          highest_point = some p;
        }
  unfolding scan
  scan_one current p h = ground arith

  -- A batch of one point is a point: where flapping is not looked at, the level before is at most
  -- critical, the batch has the time of its point, and its templates give what they give for
  -- the point, BufferedBatch leaves the same state as Point and does the same.
  pub buffered_batch-point :
      (begin : Begin P) (p : P) (a : AlertState)
      → n.use_flapping ≡ false
      → current_level a ≤ critical
      → begin.time ≡ n.time p
      → begin.render_id ≡ n.render_id p
      → begin.render_message ≡ n.render_message
      → buffered_batch begin (p ∷ []) a ≡ point fl n p a
  unfolding buffered_batch point
  buffered_batch-point begin p a steady bounded same_time same_id same_message = ground (
    arith,
    scan_one (current_level a) p (determine_level-le n.levels p (current_level a) bounded),
  )
