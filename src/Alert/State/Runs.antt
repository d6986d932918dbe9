-- ===== src/Alert/State/Runs.antt =====
-- What an alertState (alert.go) emits over the points of its group, by plain settings.
use Prim.Native.String.{String}
use kapacitor.Prelude.{
  subst, ap₂, ℕ, ◌≡◌, refl, sym, ap, ◌∙◌, ◌⊎◌, inl, inr, List, [], ◌∷◌, some, true, false, not,
  ◌&&◌, if◌then◌else◌, ◌==◌, arith, get_or, Bool-cases,
}
use kapacitor.Prelude.Int.{ℤ, sub_ℕ}
use kapacitor.Alert.Level.{Level, ok, determine_level}
use kapacitor.Alert.State.{
  Floats, AlertNode, AlertState, new_alert_state, current_level, previous_idx, triggered, duration,
  add_event, point, Event, Reply, quiet, emit,
}
use kapacitor.Alert.State.Ring.{IsValid, new-IsValid, Added, add_event-Added}

module _ (fl : Floats) {P : Type 0} (n : AlertNode fl P) where
  -- The points of a group, in order, and what each makes it do.
  pub run : List P → AlertState → AlertState × List (Reply fl n)
  run [] a = (a, [])
  run (p ∷ ps) a = let (a', r) = point fl n p a in let (a'', rs) = run ps a' in (a'', r ∷ rs)

  -- Every change of level and every level but OK is emitted, and all templates work.
  pub record IsPlain (ids : P → String) (messages : P → Level → ℤ → String) : Type 0 where
    pub no_flapping : n.use_flapping ≡ false
    pub all_states : n.is_state_changes_only ≡ false
    pub recoveries : n.no_recoveries ≡ false
    pub ids_work : (p : P) → n.render_id p ≡ some (ids p)
    pub messages_work : (p : P) (l : Level) (d : ℤ) → n.render_message p l d ≡ some (messages p l d)

  module _ (ids : P → String) (messages : P → Level → ℤ → String) where
    -- What the points emit, by the level before them and the time since which that is not OK.
    abbrev pub outputs : Level → (since : ℕ) → List P → List (Reply fl n)
    outputs previous since [] = []
    outputs previous since (p ∷ ps) =
        let l = determine_level n.levels p previous in
        let since' = if previous == ok then n.time p else since in
        let lasted = sub_ℕ (n.time p) since' in
        (if l == ok && previous == ok
          then quiet
          else emit (record {
            id = ids p;
            message = messages p l lasted;
            time = n.time p;
            duration = lasted;
            level = l;
          }))
        ∷ outputs l since' ps

    -- The level after the points.
    abbrev pub final_level : Level → List P → Level
    final_level previous [] = previous
    final_level previous (p ∷ ps) = final_level (determine_level n.levels p previous) ps

    -- The state between two points.
    record Tracks (level : Level) (since : ℕ) (a : AlertState) : Type 0 where
      valid : IsValid a
      level_eq : current_level a ≡ level
      since_eq : (level ≡ ok) ⊎ (a.first_triggered ≡ since)
      inhibits : a.inhibited ≡ not (level == ok)

    triggered-fields :
        (t : ℕ) (b : AlertState) (prev l : Level)
        → current_level b ≡ l
        → get_or b.history (previous_idx b) ok ≡ prev
        → let c = triggered t b in
          (c.history ≡ b.history)
          × (c.idx ≡ b.idx)
          × (c.inhibited ≡ not (l == ok))
          × (c.first_triggered ≡ (if prev == ok then t else b.first_triggered))
          × (duration c ≡ sub_ℕ t (if prev == ok then t else b.first_triggered))
    unfolding triggered current_level duration
    triggered-fields t b prev l h k = ground arith

    -- A point by plain settings, with the new level and the state after addEvent given.
    point_plain :
        IsPlain ids messages
        → (p : P) (a : AlertState) (l : Level) → determine_level n.levels p (current_level a) ≡ l
        → let b = add_event fl n (n.time p) l a in
          let c = triggered (n.time p) b in
          point fl n p a ≡ (
            if l == ok && not b.changed then (b, quiet) else (
              c,
              emit (record {
                id = ids p;
                message = messages p l (duration c);
                time = n.time p;
                duration = duration c;
                level = l;
              }),
            ))
    unfolding point
    point_plain plain p a l e =
        let b = add_event fl n (n.time p) l a in
        ground (
          arith,
          plain.ids_work p,
          plain.messages_work p l (duration (triggered (n.time p) b)),
          e,
          plain.no_flapping,
          plain.all_states,
          plain.recoveries,
        )

    slot_eq :
        (b c : AlertState)
        → b.history ≡ c.history
        → b.idx ≡ c.idx
        → current_level b ≡ current_level c
    unfolding current_level
    slot_eq b c e f = ap₂ (λ (h : List Level) (i : ℕ). get_or h i ok) e f

    module _ (p : P) (a : AlertState) (previous : Level) (since : ℕ)
        (h : Tracks previous since a) where
      abbrev level : Level
      level = determine_level n.levels p previous

      abbrev since_now : ℕ
      since_now = if previous == ok then n.time p else since

      abbrev added : AlertState
      added = add_event fl n (n.time p) level a

      facts : Added fl n (n.time p) level a added
      facts = add_event-Added fl n (n.time p) level a h.valid

      changed_eq : added.changed ≡ not (previous == level)
      changed_eq = facts.changed ∙ ap (λ (k : ℕ). not (k == level)) h.level_eq

      abbrev said : Event fl n
      said = record {
        id = ids p;
        message = messages p level (sub_ℕ (n.time p) since_now);
        time = n.time p;
        duration = sub_ℕ (n.time p) since_now;
        level = level;
      }

      quiet-Tracks : (level ≡ ok) → (previous ≡ ok) → Tracks level since_now added
      quiet-Tracks e f = record {
        valid = facts.valid;
        level_eq = facts.current;
        since_eq = inl e;
        inhibits = facts.same_inhibited ∙ h.inhibits ∙ ap (λ (k : ℕ). not (k == ok)) (f ∙ sym e);
      }

      emit-Tracks :
          Tracks level since_now (triggered (n.time p) added)
          × (duration (triggered (n.time p) added) ≡ sub_ℕ (n.time p) since_now)
      emit-Tracks = (
        record {
          valid = ground (arith, facts.valid, f);
          level_eq = same_level ∙ facts.current;
          since_eq = inr first_eq;
          inhibits = f.2;
        },
        f.4 ∙ ap (λ k. sub_ℕ (n.time p) k) (sym f.3 ∙ first_eq),
      )
        where
          c : AlertState
          c = triggered (n.time p) added

          f :
              (c.history ≡ added.history)
              × (c.idx ≡ added.idx)
              × (c.inhibited ≡ not (level == ok))
              × (c.first_triggered ≡ (if previous == ok then n.time p else added.first_triggered))
              × (duration c
                  ≡ sub_ℕ (n.time p) (if previous == ok then n.time p else added.first_triggered))
          f =
              triggered-fields (n.time p) added previous level facts.current
                (facts.previous ∙ h.level_eq)

          same_level : current_level c ≡ current_level added
          same_level = slot_eq c added f.0 f.1

          first_eq : c.first_triggered ≡ since_now
          first_eq = ground (arith, f.3, facts.same_first, h.since_eq)

      point-Tracks :
          IsPlain ids messages
          → ((point fl n p a).1 ≡ (if level == ok && previous == ok then quiet else emit said))
            × Tracks level since_now (point fl n p a).0
      point-Tracks plain = elim (Bool-cases (level == ok && previous == ok)) [
        | inl both ↦
            let (l_ok, p_ok) = oks both in
            let step = point_plain plain p a level (ap (determine_level n.levels p) h.level_eq) in
            let eq = step ∙ quiet_branch both in
            (
              ap (λ r. r.1) eq ∙ rw both,
              subst (Tracks level since_now) (sym (ap (λ r. r.0) eq)) (quiet-Tracks l_ok p_ok),
            )
        | inr other ↦
            let step = point_plain plain p a level (ap (determine_level n.levels p) h.level_eq) in
            let eq = step ∙ emit_branch other in
            (
              ap (λ r. r.1) eq ∙ rw other,
              subst (Tracks level since_now) (sym (ap (λ r. r.0) eq)) emit-Tracks.0,
            )
      ]
        where
          outcome : AlertState × Reply fl n
          outcome = if level == ok && not added.changed then (added, quiet) else (
            triggered (n.time p) added,
            emit (record {
              id = ids p;
              message = messages p level (duration (triggered (n.time p) added));
              time = n.time p;
              duration = duration (triggered (n.time p) added);
              level = level;
            }),
          )

          oks : (level == ok && previous == ok) ≡ true → (level ≡ ok) × (previous ≡ ok)
          oks e = ground arith

          quiet_branch : (level == ok && previous == ok) ≡ true → outcome ≡ (added, quiet)
          quiet_branch e = ground (arith, changed_eq)

          emit_branch :
              (level == ok && previous == ok) ≡ false
              → outcome ≡ (triggered (n.time p) added, emit said)
          emit_branch e = ground (arith, changed_eq, emit-Tracks.1)

    run-Tracks :
        IsPlain ids messages
        → (ps : List P) (a : AlertState) (previous : Level) (since : ℕ) → Tracks previous since a
        → ((run ps a).1 ≡ outputs previous since ps)
          × ((s : ℕ) × Tracks (final_level previous ps) s (run ps a).0)
    unfolding run
    run-Tracks plain [] a previous since h = (refl, (since, h))
    run-Tracks plain (p ∷ ps) a previous since h =
        let (out, h') = point-Tracks p a previous since h plain in
        let (outs, h'') =
          run-Tracks plain ps (point fl n p a).0 (level p a previous since h)
            (since_now p a previous since h) h' in
        (ap₂ ◌∷◌ out outs, h'')

    -- A new group whose node suppresses nothing (no flapping detection, no state changes only, no
    -- suppressed recoveries) and whose templates work, over any points: each point gets its level
    -- from the level before it; a point makes an event unless it is OK after OK; the event has the
    -- new level, the time of the point, and as duration the time since the first point of the
    -- unbroken run of levels other than OK that it belongs to or ends, 0 for the first one. Then the
    -- group's level is that of the last point, and its inhibitors are set exactly if it is not OK.
    pub run-outputs :
        IsPlain ids messages
        → (history : ℕ) (ps : List P)
        → let (a, rs) = run ps (new_alert_state history) in
          (rs ≡ outputs ok 0 ps)
          × (current_level a ≡ final_level ok ps)
          × (a.inhibited ≡ not (final_level ok ps == ok))
    unfolding new_alert_state
    run-outputs plain history ps =
        let (v, l) = new-IsValid history in
        let (outs, (s, h)) =
          run-Tracks plain ps (new_alert_state history) ok 0
            (record { valid = v; level_eq = l; since_eq = inl refl; inhibits = refl }) in
        (outs, h.level_eq, h.inhibits)
