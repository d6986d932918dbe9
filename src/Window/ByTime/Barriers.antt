-- ===== src/Window/ByTime/Barriers.antt =====
-- What a barrier does to windowByTime (window.go): a refinement.
use kapacitor.Prelude.{
  ◌≢◌, ℕ, ◌<◌, ◌≡◌, refl, sym, ap, subst, ◌∙◌, List, Option, none, some, Bool, true, false, leb,
  ◌==◌, if◌then◌else◌, arith, select, dec_lt, ℕ_discrete,
}
use kapacitor.Window.Slots.{slots}
use kapacitor.Window.TimeBuffer.Purge.{AtEnd}
use kapacitor.Window.ByTime.{WindowByTime, Batch, emit, barrier, next_tick, with_next}
use kapacitor.Window.ByTime.Valid.{Valid, Dead, Sorted-select, Holds-map}
use kapacitor.Window.ByTime.Steps.{kept, emit_lem, next_tick-le, Refines}

module _ {P : Type 0} (time : P → ℕ) where
  -- What Barrier does, on the list of the points that the window holds.
  abbrev pub barrier_spec : ℕ → WindowByTime P → List P → ℕ × List P × Option (Batch P)
  barrier_spec now w q =
      if leb w.next_emit now
      then (if w.every == 0
          then (
            now,
            select (kept time false now w) q,
            some (record { tmax = now; points = slots (select (kept time false now w) q) }),
          )
          else (
            next_tick time w now,
            select (kept time true w.next_emit w) q,
            some (record {
              tmax = w.next_emit;
              points = slots (select (kept time true w.next_emit w) q);
            }),
          ))
      else (w.next_emit, q, none)

  module _ (now : ℕ) (w : WindowByTime P) (q : List P) (v : Valid time w q) where
    barrier-early : now < w.next_emit → Refines time (barrier time now w) w (barrier_spec now w q)
    unfolding barrier
    barrier-early early = subst (Refines time (barrier time now w) w) (sym spec) (record {
      after = w;
      returns = ground arith;
      next_eq = refl;
      same_period = refl;
      same_every = refl;
      same_align = refl;
      valid = v;
    })
      where
        spec : barrier_spec now w q ≡ (w.next_emit, q, none)
        spec = ground arith

    barrier-due :
        (tick n : ℕ) (inclusive : Bool)
        → barrier time now w ≡ with_next time n (emit time tick inclusive w)
        → ((p : P) → Dead time w p → kept time inclusive tick w p ≡ false)
        → ((p : P)
            → kept time inclusive tick w p ≡ false
            → Dead time (record w { next_emit = n }) p)
        → ¬ AtEnd w.buf
        → Refines time (barrier time now w) w (
          n,
          select (kept time inclusive tick w) q,
          some (record { tmax = tick; points = slots (select (kept time inclusive tick w) q) }),
        )
    barrier-due tick n inclusive eq dead still free =
        let (b, emitted, h) =
          emit_lem time tick inclusive w q (Dead time w) v.holds dead v.sorted free in
        record {
          after = record w { buf = b; next_emit = n };
          returns = eq ∙ ap (with_next time n) emitted;
          next_eq = refl;
          same_period = refl;
          same_every = refl;
          same_align = refl;
          valid = record {
            holds = Holds-map time still h;
            sorted = Sorted-select time (kept time inclusive tick w) q v.sorted;
          };
        }

    -- Barrier on a window that holds the points `q`, in the order of time and with only points in
    -- its other slots that are too old for the purges to come, where the buffer is not full with
    -- `start` at its end: there is no panic; before the time to emit nothing changes. From it on
    -- the window keeps and emits exactly the points after `now - period` with the time `now` if
    -- `every` is 0, and else those from `next_emit - period` on with the time `next_emit`, and
    -- sets the next time to emit by `now`. The window is valid again.
    pub barrier-Refines : ¬ AtEnd w.buf → Refines time (barrier time now w) w (barrier_spec now w q)
    unfolding barrier
    barrier-Refines free = elim (dec_lt now w.next_emit) [
      | yes early ↦ barrier-early early
      | no due ↦ elim (ℕ_discrete w.every 0) [
        | yes e ↦ subst (Refines time (barrier time now w) w) (sym (spec_zero due e)) (
            barrier-due now now false (ground arith) (λ p d. ground arith) (λ p d. ground arith)
              free)
        | no e ↦ subst (Refines time (barrier time now w) w) (sym (spec_pos due e)) (
            barrier-due w.next_emit (next_tick time w now) true (ground arith) (λ p d. ground arith)
              (λ p d. ground (arith, next_tick-le time w now (omega arith))) free)
      ]
    ]
      where
        spec_zero :
            ¬ (now < w.next_emit)
            → w.every ≡ 0
            → barrier_spec now w q ≡ (
              now,
              select (kept time false now w) q,
              some (record { tmax = now; points = slots (select (kept time false now w) q) }),
            )
        spec_zero due e = ground arith

        spec_pos :
            ¬ (now < w.next_emit)
            → w.every ≢ 0
            → barrier_spec now w q ≡ (
              next_tick time w now,
              select (kept time true w.next_emit w) q,
              some (record {
                tmax = w.next_emit;
                points = slots (select (kept time true w.next_emit w) q);
              }),
            )
        spec_pos due e = ground arith
