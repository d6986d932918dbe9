-- ===== src/Union/Hold.antt =====
-- The union node (union.go) holds its messages back while a parent has sent nothing.
use kapacitor.Prelude.{
  inr, inl, ℕ, ◌+◌, ◌≤◌, ◌<◌, ◌≡◌, Bool, true, false, ◌||◌, ◌==◌, List, [], ◌∷◌, ◌++◌, Option, none,
  some, length, get_elem?, set, arith, Bool-cases,
}
use kapacitor.Union.{Source, Marks, see, see_all, keep_marks, emit_ready, source_mark, receive}

module _ {M : Type 0} (time : M → ℕ) where
  -- Some source has no message and never had one.
  abbrev pub silent : List (Source M) → Bool
  silent [] = false
  silent (s ∷ ss) = (source_mark time s == 0) || silent ss

  see_all-valid :
      (ss : List (Source M)) (k : Marks)
      → ((see_all time false ss k).valid ≤ k.valid + length ss)
        × (silent ss ≡ true → (see_all time false ss k).valid < k.valid + length ss)
  unfolding see_all see
  see_all-valid [] k = (omega arith, λ h. cc)
  see_all-valid (s ∷ ss) k =
      let (le, lt) = see_all-valid ss (see time false s k) in
      elim (Bool-cases (source_mark time s == 0)) [
        | inl z ↦ (ground (arith, z, le), λ h. ground (arith, z, le))
        | inr z ↦ (ground (arith, z, le), λ h. ground (arith, z, lt (ground (arith, h, z))))
      ]

  module _ {S E : Type 0} (emit : M → S → S × Option E) where
    -- A message of one parent, while another parent has no message and never had one: nothing is
    -- forwarded, no error comes up, and the message waits as the last one of its source.
    pub receive-holds :
        (src : ℕ) (m : M) (rounds : ℕ) (ss : List (Source M)) (source : Source M) (s : S)
        → get_elem? ss src ≡ some source
        → silent (set ss src (record source { values = source.values ++ m ∷ [] })) ≡ true
        → receive time emit src m (rounds + 1) ss s
          ≡ some (
            keep_marks time (set ss src (record source { values = source.values ++ m ∷ [] })),
            (s, none),
          )
    unfolding receive emit_ready
    receive-holds src m rounds ss source s at h =
        let now = set ss src (record source { values = source.values ++ m ∷ [] }) in
        let lt = (see_all-valid now (record { mark = 0; valid = 0 })).1 h in ground (arith, at, lt)
