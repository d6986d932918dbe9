-- ===== src/Window/ByTime/Steps.antt =====
-- Point of windowByTime (window.go) against its specification over lists, and what Barrier shares.
use kapacitor.Prelude.{
  ℕ, fun_ext, ◌+◌, ◌≤◌, ◌<◌, ◌≡◌, refl, sym, subst, ◌∙◌, List, [], ◌∷◌, ◌++◌, Option, none, some,
  Bool, true, false, not, ltb, leb, ◌==◌, if◌then◌else◌, arith, All, Fails, select,
  drop_until-eq-select, dec_lt, ℕ_discrete,
}
use native.Mathlib.Nat.{mod-lt}
use kapacitor.Prelude.Int.{sub_ℕ}
use kapacitor.Window.Slots.{slots}
use kapacitor.Window.TimeBuffer.{TimeBuffer, insert}
use kapacitor.Window.TimeBuffer.Holding.{Holds, points-Holds}
use kapacitor.Window.TimeBuffer.Insert.{insert-Holds}
use kapacitor.Window.TimeBuffer.Purge.{purge-Holds, AtEnd}
use kapacitor.Window.ByTime.{
  WindowByTime, Outcome, Batch, include, emit, point, insert_point, truncate, next_tick,
}
use kapacitor.Window.ByTime.Valid.{
  Valid, Dead, Sorted, Sorted-snoc, Sorted-Ordered, Sorted-select, All-select, Holds-map,
  include_left, include_right,
}

module _ {P : Type 0} (time : P → ℕ) where
  -- The window of a tick: from `tick - period` on if it holds its oldest time, else after it.
  abbrev pub kept : (inclusive : Bool) (tick : ℕ) → WindowByTime P → P → Bool
  kept inclusive tick w p =
      if inclusive then not (ltb (time p + w.period) tick) else ltb tick (time p + w.period)

  -- Emission alone: a purge, and a copy of what is left.
  module _ (tick : ℕ) (inclusive : Bool) (w : WindowByTime P) (q : List P) where
    abbrev recent : P → Bool
    recent p = include (sub_ℕ tick w.period) inclusive (time p)

    recent-kept : (p : P) → recent p ≡ kept inclusive tick w p
    recent-kept p =
        elim inclusive as (λ b. include (sub_ℕ tick w.period) b (time p) ≡ kept b tick w p) [
          | true ↦ include_left tick w.period (time p)
          | false ↦ include_right tick w.period (time p)
        ]

    pub emit_lem :
        (D : P → Type 0)
        → Holds D w.buf q
        → ((p : P) → D p → kept inclusive tick w p ≡ false)
        → Sorted time q
        → ¬ AtEnd w.buf
        → (b : TimeBuffer P) × (emit time tick inclusive w
            ≡ some (
              record w { buf = b },
              some (record { tmax = tick; points = slots (select (kept inclusive tick w) q) }),
            ))
          × Holds (Fails (kept inclusive tick w)) b (select (kept inclusive tick w) q)
    unfolding emit
    emit_lem D h dead sorted free =
        let ordered = Sorted-Ordered time (sub_ℕ tick w.period) inclusive q sorted in
        let (b, eq, h') = purge-Holds recent D (λ p d. recent-kept p ∙ dead p d) h ordered free in
        let held =
          subst (λ k. Holds (Fails k) b (select k q)) (fun_ext recent-kept)
            (subst (Holds (Fails recent) b) (drop_until-eq-select recent q ordered) h') in
        (b, ground (arith, eq, points-Holds (Fails (kept inclusive tick w)) held), held)

  insert_lem :
      (p : P) (D : P → Type 0) (w : WindowByTime P) (q : List P)
      → Holds D w.buf q
      → (b : TimeBuffer P) × (insert p w.buf ≡ some b)
        × (insert_point time p w ≡ some (record w { buf = b }))
        × Holds D b (q ++ p ∷ [])
  unfolding insert_point
  insert_lem p D w q h = let (b, eq, h') = insert-Holds D p h in (b, eq, ground (arith, eq), h')

  -- A call that does not panic: the message, the next time to emit and the points held then. The
  -- settings of the window are as before.
  pub record Steps (out : Outcome P) (w : WindowByTime P) (next : ℕ) (held : List P)
      (msg : Option (Batch P)) : Type 0 where
    pub after : WindowByTime P
    pub returns : out ≡ some (after, msg)
    pub next_eq : after.next_emit ≡ next
    pub same_period : after.period ≡ w.period
    pub same_every : after.every ≡ w.every
    pub same_align : after.align ≡ w.align
    pub valid : Valid time after held

  truncate-gt : (every now : ℕ) → 0 < every → now ≤ truncate every (now + every)
  truncate-gt every now h = ground (arith, mod-lt (now + every) h)

  pub next_tick-le : (w : WindowByTime P) (now : ℕ) → 0 < w.every → now ≤ next_tick time w now
  next_tick-le w now h = ground (arith, truncate-gt w.every now h)

  -- What Point does, on the list of the points that the window holds.
  abbrev pub point_spec : P → WindowByTime P → List P → ℕ × List P × Option (Batch P)
  point_spec p w q =
      if w.every == 0
      then (if leb w.next_emit (time p)
          then (
            time p,
            select (kept false (time p) w) (q ++ p ∷ []),
            some (record {
              tmax = time p;
              points = slots (select (kept false (time p) w) (q ++ p ∷ []));
            }),
          )
          else (w.next_emit, q ++ p ∷ [], none))
      else (if leb w.next_emit (time p)
          then (
            next_tick time w (time p),
            select (kept true w.next_emit w) q ++ p ∷ [],
            some (record {
              tmax = w.next_emit;
              points = slots (select (kept true w.next_emit w) q);
            }),
          )
          else (w.next_emit, q ++ p ∷ [], none))

  -- The buffer that Point purges, if it emits.
  abbrev pub purged : P → WindowByTime P → Option (TimeBuffer P)
  purged p w = if w.every == 0 then insert p w.buf else some w.buf

  abbrev pub Refines : Outcome P → WindowByTime P → ℕ × List P × Option (Batch P) → Type 0
  Refines out w spec = Steps out w spec.0 spec.1 spec.2

  module _ (p : P) (w : WindowByTime P) (q : List P) (v : Valid time w q)
      (latest : All (λ r. time r ≤ time p) q) where
    -- A window that emits on every point.
    all-Sorted : Sorted time (q ++ p ∷ [])
    all-Sorted = Sorted-snoc time q p v.sorted latest

    spec-early : time p < w.next_emit → point_spec p w q ≡ (w.next_emit, q ++ p ∷ [], none)
    spec-early h = ground arith

    spec-due_zero :
        w.every ≡ 0
        → w.next_emit ≤ time p
        → point_spec p w q ≡ (
          time p,
          select (kept false (time p) w) (q ++ p ∷ []),
          some (record {
            tmax = time p;
            points = slots (select (kept false (time p) w) (q ++ p ∷ []));
          }),
        )
    spec-due_zero e h = ground arith

    spec-due_pos :
        0 < w.every
        → w.next_emit ≤ time p
        → point_spec p w q ≡ (
          next_tick time w (time p),
          select (kept true w.next_emit w) q ++ p ∷ [],
          some (record { tmax = w.next_emit; points = slots (select (kept true w.next_emit w) q) }),
        )
    spec-due_pos e h = ground arith

    -- Nothing is emitted before the next time to emit.
    point-early : time p < w.next_emit → Refines (point time p w) w (point_spec p w q)
    unfolding point
    point-early early =
        let (b, eq, inserted, h) = insert_lem p (Dead time w) w q v.holds in
        subst (Refines (point time p w) w) (sym (spec-early early)) (record {
          after = record w { buf = b };
          returns = ground (arith, inserted);
          next_eq = refl;
          same_period = refl;
          same_every = refl;
          same_align = refl;
          valid = record { holds = h; sorted = all-Sorted };
        })

    -- A window that emits on every point.
    point-every_zero :
        w.every ≡ 0
        → w.next_emit ≤ time p
        → ((b : TimeBuffer P) → insert p w.buf ≡ some b → ¬ AtEnd b)
        → Refines (point time p w) w (point_spec p w q)
    unfolding point
    point-every_zero zero_every due free =
        let (b, eq, inserted, h) = insert_lem p (Dead time w) w q v.holds in
        let (b', emitted, h') =
          emit_lem (time p) false (record w { buf = b }) (q ++ p ∷ []) (Dead time w) h
            (λ r d. ground arith) all-Sorted (free b eq) in
        subst (Refines (point time p w) w) (sym (spec-due_zero zero_every due)) (record {
          after = record w { buf = b'; next_emit = time p };
          returns = ground (arith, inserted, emitted);
          next_eq = refl;
          same_period = refl;
          same_every = refl;
          same_align = refl;
          valid = record {
            holds = Holds-map time (λ r d. ground arith) h';
            sorted = Sorted-select time (kept false (time p) w) (q ++ p ∷ []) all-Sorted;
          };
        })

    -- A window that emits at intervals.
    point-every_pos :
        0 < w.every
        → w.next_emit ≤ time p
        → ¬ AtEnd w.buf
        → Refines (point time p w) w (point_spec p w q)
    unfolding point
    point-every_pos pos_every due free =
        let n = next_tick time w (time p) in
        let (b, emitted, h) =
          emit_lem w.next_emit true w q (Dead time w) v.holds (λ r d. ground arith) v.sorted free in
        let w' = record w { buf = b; next_emit = n } in
        let (b', eq, inserted, h') =
          insert_lem p (Dead time w') w' (select (kept true w.next_emit w) q)
            (Holds-map time (λ r d. ground (arith, next_tick-le w (time p) pos_every)) h) in
        subst (Refines (point time p w) w) (sym (spec-due_pos pos_every due)) (record {
          after = record w' { buf = b' };
          returns = ground (arith, inserted, emitted);
          next_eq = refl;
          same_period = refl;
          same_every = refl;
          same_align = refl;
          valid = record {
            holds = h';
            sorted =
                Sorted-snoc time (select (kept true w.next_emit w) q) p
                  (Sorted-select time (kept true w.next_emit w) q v.sorted)
                  (All-select time (λ r. time r ≤ time p) (kept true w.next_emit w) q latest);
          };
        })

    -- Point on a window that holds the points `q`, in the order of time and with only points in
    -- its other slots that are too old for the purges to come, where the new point is not older
    -- than those of `q` and the buffer that is purged is not full with `start` at its end: there
    -- is no panic; a window with `every` 0 takes the point in, and if the time to emit is reached
    -- it keeps and emits exactly the points after `time - period`, with the point's time; any
    -- other window keeps and emits, if the time to emit is reached, exactly the points from
    -- `next_emit - period` on, with the time `next_emit`, and takes the new point in behind them.
    -- Otherwise it only takes the point in. The window is valid again.
    pub point-Refines :
        ((b : TimeBuffer P) → purged p w ≡ some b → ¬ AtEnd b)
        → Refines (point time p w) w (point_spec p w q)
    point-Refines free = elim (dec_lt (time p) w.next_emit) [
      | yes early ↦ point-early early
      | no due ↦ elim (ℕ_discrete w.every 0) [
        | yes e ↦ point-every_zero e (omega arith) (λ b eq. free b (rw e eq))
        | no e ↦ point-every_pos (omega arith) (omega arith) (free w.buf (ground arith))
      ]
    ]
