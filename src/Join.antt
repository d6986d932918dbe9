-- ===== src/Join.antt =====
-- joinGroup and joinset of join.go: the points of one group, collected into sets by their time.
pub mod Sets
pub mod Sound
pub mod Emission
pub mod Rounds
pub mod Heads
pub mod Keys
pub mod Quiet
pub mod QuietRounds
pub mod FinishOrder
pub mod InOrder
pub mod RunsInOrder
pub mod Finish
pub mod Stuck
pub mod Point
pub mod Forwarded
use kapacitor.Prelude.{
  ℕ, zero, suc, ◌+◌, Bool, true, false, not, ◌&&◌, ◌||◌, List, [], ◌∷◌, ◌++◌, Option, none, some,
  if◌then◌else◌, ltb, leb, ◌==◌, length, get_elem?, set, replicate, min,
}

-- What joinset holds of the points; the prefixes and the fill are those of the node.
pub record JoinSet (P : Type 0) : Type 0 where
  pub time : ℕ
  pub values : List (Option P)
  pub expected : ℕ
  pub size : ℕ
  pub first : ℕ

-- The map `sets` is an association list with the time as key; 0 is the zero time.
pub record JoinGroup (P : Type 0) : Type 0 where
  pub sets : List (ℕ × List (JoinSet P))
  pub head : List ℕ
  pub oldest_time : ℕ

-- The loop of checkOnlyReadSets: some time is not after the oldest one.
pub any_until : ℕ → List ℕ → Bool
any_until oldest [] = false
any_until oldest (t ∷ ts) = let rest = any_until oldest ts in if leb t oldest then true else rest

-- A message of one group: a point, or a barrier at its rounded time.
pub data Input (P : Type 0) : Type 0 where
  a_point : (src : ℕ) (p : P) → Input P
  a_barrier : (src t : ℕ) → Input P

module _ {P : Type 0} where
  unfoldable pub new_joinset : (expected time : ℕ) → JoinSet P
  new_joinset expected time = record {
    time = time;
    values = replicate expected none;
    expected = expected;
    size = 0;
    first = expected;
  }

  pub new_group : (count : ℕ) → JoinGroup P
  new_group count = record { sets = []; head = replicate count 0; oldest_time = 0 }

  pub ready : JoinSet P → Bool
  ready js = js.size == js.expected

  -- Both panic out of range, where `collect` has panicked before.
  unfoldable pub has : ℕ → JoinSet P → Bool
  has i js = elim (get_elem? js.values i) [
    | none ↦ false
    | some v ↦ elim v [ none ↦ false | some p ↦ true ]
  ]

  unfoldable pub set_value : ℕ → P → JoinSet P → JoinSet P
  set_value i p js = record js {
    first = if ltb i js.first then i else js.first;
    values = set js.values i (some p);
    size = js.size + 1;
  }

  -- g.sets[t], `g.sets[t] = sets` and `delete(g.sets, t)`.
  unfoldable pub sets_at : ℕ → List (ℕ × List (JoinSet P)) → List (JoinSet P)
  sets_at t [] = []
  sets_at t ((u, js) ∷ m) = let rest = sets_at t m in if u == t then js else rest

  pub put_sets : ℕ → List (JoinSet P) → List (ℕ × List (JoinSet P)) → List (ℕ × List (JoinSet P))
  put_sets t new [] = (t, new) ∷ []
  put_sets t new ((u, js) ∷ m) =
      let rest = put_sets t new m in if u == t then (u, new) ∷ m else (u, js) ∷ rest

  pub delete_sets : ℕ → List (ℕ × List (JoinSet P)) → List (ℕ × List (JoinSet P))
  delete_sets t [] = []
  delete_sets t ((u, js) ∷ m) = let rest = delete_sets t m in if u == t then m else (u, js) ∷ rest

  -- The loop over the keys in emit, which starts with the zero time.
  pub oldest_of : (oldest : ℕ) → List (ℕ × List (JoinSet P)) → ℕ
  oldest_of oldest [] = oldest
  oldest_of oldest ((t, js) ∷ m) = oldest_of (if (oldest == 0) || ltb t oldest then t else oldest) m

  -- The point goes to the first set of its time without a point of its source, or to a new one.
  pub add_to : (expected t src : ℕ) → P → List (JoinSet P) → List (JoinSet P)
  add_to expected t src p [] = set_value src p (new_joinset expected t) ∷ []
  add_to expected t src p (js ∷ rest) =
      let later = add_to expected t src p rest in
      if has src js then js ∷ later else set_value src p js ∷ rest

  -- `t.Before(g.oldestTime) || g.oldestTime.IsZero()`
  -- Where no set has this time, emit goes on to the oldest time of the sets.
  abbrev pub earlier : ℕ → JoinGroup P → ℕ
  earlier t g = if ltb t g.oldest_time || (g.oldest_time == 0) then t else g.oldest_time

  -- checkOnlyReadSets
  pub check_only_ready_sets : JoinGroup P → Bool
  check_only_ready_sets g = any_until g.oldest_time g.head

  -- What emit leaves of the sets at the oldest time.
  pub leave : JoinGroup P → List (JoinSet P) → JoinGroup P
  leave g left =
      let sets' : List (ℕ × List (JoinSet P)) = elim left [
        | [] ↦ delete_sets g.oldest_time g.sets
        | js ∷ rest ↦ put_sets g.oldest_time (js ∷ rest) g.sets
      ] in
      record g { sets = sets'; oldest_time = oldest_of 0 sets' }

  -- `emit_joined_set` joins the points of a set and forwards the result, and may fail.
  module _ {S E : Type 0} (emit_joined_set : JoinSet P → S → S × Option E) where
    -- The loop of emit: the sets left, and the first error.
    pub emit_sets : (only_ready : Bool) → List (JoinSet P) → S → List (JoinSet P) × (S × Option E)
    emit_sets only_ready [] s = ([], (s, none))
    emit_sets only_ready (js ∷ rest) s =
        let (s', e) = emit_joined_set js s in
        let later = emit_sets only_ready rest s' in
        if ready js || not only_ready
        then elim e [ none ↦ later | some x ↦ (js ∷ rest, (s', some x)) ]
        else (js ∷ rest, (s, none))

    abbrev pub Emitted : Type 0
    Emitted = JoinGroup P × (S × Option E)

    -- emit, which calls itself; none is returned where `rounds` calls are not enough.
    pub emit_rounds : (rounds : ℕ) → (only_ready : Bool) → JoinGroup P → S → Option Emitted
    emit_rounds zero only_ready g s = none
    emit_rounds (suc rounds) only_ready g s =
        let r = emit_sets only_ready (sets_at g.oldest_time g.sets) s in
        let g' = leave g r.0 in
        let again = emit_rounds rounds (check_only_ready_sets g') g' r.1.0 in
        elim g.sets [
          | [] ↦ some (g, (s, none))
          | _ ∷ _ ↦ elim r.1.1 [
            | some x ↦ some (g, (r.1.0, some x))
            | none ↦ if only_ready then some (g', (r.1.0, none)) else again
          ]
        ]

    pub emit : (only_ready : Bool) → JoinGroup P → S → Option Emitted
    emit only_ready g s = emit_rounds (length g.sets + 2) only_ready g s

    -- Collect, for a point and its rounded time; it panics on a source that is out of range.
    pub collect : (expected src t : ℕ) → P → JoinGroup P → S → Option Emitted
    collect expected src t p g s =
        let g' : JoinGroup P = record {
          sets = put_sets t (add_to expected t src p (sets_at t g.sets)) g.sets;
          head = set g.head src t;
          oldest_time = earlier t g;
        } in
        if ltb src expected && ltb src (length g.head)
        then emit (check_only_ready_sets g') g' s
        else none

    -- Barrier, for its rounded time.
    pub barrier : (src t : ℕ) → JoinGroup P → S → Option Emitted
    barrier src t g s =
        let g' = record g { head = set g.head src t; oldest_time = earlier t g } in
        if ltb src (length g.head) then emit (check_only_ready_sets g') g' s else none

    -- emitAll: the last error of emit, and none where `rounds` rounds are not enough.
    pub emit_all : (rounds : ℕ) → Option E → JoinGroup P → S → Option Emitted
    emit_all zero last g s = none
    emit_all (suc rounds) last g s = elim g.sets [
      | [] ↦ some (g, (s, last))
      | _ ∷ _ ↦ elim (emit false g s) [
        | none ↦ none
        | some (g', (s', e)) ↦ emit_all rounds (elim e [ none ↦ last | some x ↦ some x ]) g' s'
      ]
    ]

    -- doMessage and Barrier of the node, for one group; they drop the error.
    abbrev pub no_error : Option Emitted → Option (JoinGroup P × S)
    no_error none = none
    no_error (some (g, (s, e))) = some (g, s)

    pub receive :
        (expected : ℕ) (time : P → ℕ) → Input P → JoinGroup P → S → Option (JoinGroup P × S)
    receive expected time (a_point src p) g s = no_error (collect expected src (time p) p g s)
    receive expected time (a_barrier src t) g s = no_error (barrier src t g s)

    pub receive_all :
        (expected : ℕ) (time : P → ℕ) → List (Input P) → JoinGroup P → S → Option (JoinGroup P × S)
    receive_all expected time [] g s = some (g, s)
    receive_all expected time (i ∷ is) g s = elim (receive expected time i g s) [
      | none ↦ none
      | some (g', s') ↦ receive_all expected time is g' s'
    ]

    -- All messages of a group, and Finish at the end.
    pub join_all : (expected rounds : ℕ) (time : P → ℕ) → List (Input P) → S → Option Emitted
    join_all expected rounds time is s =
        elim (receive_all expected time is (new_group expected) s) [
          | none ↦ none
          | some (g, s') ↦ emit_all rounds none g s'
        ]
