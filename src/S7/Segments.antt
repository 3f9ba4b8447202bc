-- ===== src/S7/Segments.antt =====
-- driver/s7/s7_merge.go: one tag appended to the segments.
use core_c.Common.{
  ℕ, ◌+◌, ◌≤◌, ◌≡◌, ◌⊎◌, refl, sym, ap, inl, inr, true, List, [], ◌∷◌, ◌++◌, arith, All, All-append,
  Bool-cases, ltb, nat_key,
}
use core_c.S7.{
  S7ReadTag, S7ReadSegment, new_segment, takes, extend, append_merged_segment, s7_max_pdu_read_len,
}

module _ {F : Type 0} where
  -- The tag lies in the segment's memory area and within its bytes.
  abbrev pub IsWithinSegment : ℕ → ℕ → ℕ → ℕ → S7ReadTag F → Type 0
  IsWithinSegment area db start len t =
      (t.addr.area ≡ area)
      × (t.addr.db_number ≡ db)
      × (start ≤ t.addr.start)
      × (t.addr.start + t.addr.size ≤ start + len)

  abbrev pub IsSegment : S7ReadSegment F → Type 0
  IsSegment s = All (IsWithinSegment s.area s.db_number s.start s.length) s.entries

  -- The segment is one telegram, or just as long as its first tag.
  abbrev pub IsBounded : S7ReadSegment F → Type 0
  IsBounded s =
      (s.length ≤ s7_max_pdu_read_len)
      ⊎ ((t : S7ReadTag F) × (ts : List (S7ReadTag F)) × (s.entries ≡ t ∷ ts)
          × (s.length ≡ t.addr.size))

  -- The segments of this group start no later than `n`.
  abbrev pub IsAhead : ℕ → ℕ → ℕ → List (S7ReadSegment F) → Type 0
  IsAhead area db n = All (λ (s : S7ReadSegment F). s.area ≡ area → s.db_number ≡ db → s.start ≤ n)

  wider :
      (area db start len longer : ℕ) (ts : List (S7ReadTag F))
      → len ≤ longer
      → All (IsWithinSegment area db start len) ts
      → All (IsWithinSegment area db start longer) ts
  wider area db start len longer [] h all = tt
  wider area db start len longer (t ∷ ts) h all = (
    (all.0.0, all.0.1, all.0.2, omega (arith, all.0.3)),
    wider area db start len longer ts h all.1,
  )

  new_segment-IsSegment :
      (tag : S7ReadTag F) → IsSegment (new_segment tag.addr.area tag.addr.db_number tag)
  unfolding new_segment
  new_segment-IsSegment tag = ((refl, refl, omega arith, omega arith), tt)

  new_segment-IsBounded : (area db : ℕ) (tag : S7ReadTag F) → IsBounded (new_segment area db tag)
  unfolding new_segment
  new_segment-IsBounded area db tag = inr (tag, [], refl, refl)

  length-extend :
      (s : S7ReadSegment F) (tag : S7ReadTag F)
      → s.start ≤ tag.addr.start
      → (s.length ≤ (extend s tag).length)
        × (tag.addr.start + tag.addr.size ≤ s.start + (extend s tag).length)
  unfolding extend
  length-extend s tag ahead = (ground arith, ground arith)

  takes_key :
      (s : S7ReadSegment F) (area db : ℕ) (tag : S7ReadTag F)
      → takes s area db tag ≡ true
      → (s.area ≡ area) × (s.db_number ≡ db)
  unfolding takes
  takes_key s area db tag fits = (ground arith, ground arith)

  extend-IsSegment :
      (s : S7ReadSegment F) (tag : S7ReadTag F)
      → takes s tag.addr.area tag.addr.db_number tag ≡ true
      → s.start ≤ tag.addr.start
      → IsSegment s
      → IsSegment (extend s tag)
  unfolding extend
  extend-IsSegment s tag fits ahead all =
      let long = length-extend s tag ahead in
      let key = takes_key s tag.addr.area tag.addr.db_number tag fits in
      All-append (IsWithinSegment s.area s.db_number s.start (extend s tag).length) s.entries
        (tag ∷ [])
        (wider s.area s.db_number s.start s.length (extend s tag).length s.entries long.0 all)
        ((sym key.0, sym key.1, ahead, long.1), tt)

  extend-IsBounded :
      (s : S7ReadSegment F) (tag : S7ReadTag F)
      → takes s tag.addr.area tag.addr.db_number tag ≡ true
      → IsBounded s
      → IsBounded (extend s tag)
  unfolding takes extend
  extend-IsBounded s tag fits (inl small) = inl (ground arith)
  extend-IsBounded s tag fits (inr (t, ts, e, same)) =
      elim (Bool-cases (ltb (s.start + s.length) (tag.addr.start + tag.addr.size))) [
        | inl longer ↦ inl (ground arith)
        | inr shorter ↦
            inr (t, ts ++ tag ∷ [], ap (λ (l : List (S7ReadTag F)). l ++ tag ∷ []) e, ground arith)
      ]

  -- What the planner keeps of every segment.
  abbrev pub IsPlanned : S7ReadSegment F → Type 0
  IsPlanned s = IsSegment s × IsBounded s

  pub append-IsPlanned :
      (ss : List (S7ReadSegment F)) (tag : S7ReadTag F)
      → IsAhead tag.addr.area tag.addr.db_number tag.addr.start ss
      → All IsPlanned ss
      → All IsPlanned (append_merged_segment ss tag.addr.area tag.addr.db_number tag)
        × IsAhead tag.addr.area tag.addr.db_number tag.addr.start
            (append_merged_segment ss tag.addr.area tag.addr.db_number tag)
  unfolding append_merged_segment new_segment extend
  append-IsPlanned [] tag ahead all = (
    ((new_segment-IsSegment tag, new_segment-IsBounded tag.addr.area tag.addr.db_number tag), tt),
    ((λ a d. omega arith), tt),
  )
  append-IsPlanned (s ∷ []) tag ahead all =
      elim (Bool-cases (takes s tag.addr.area tag.addr.db_number tag)) [
        | inl fits ↦
            let key = takes_key s tag.addr.area tag.addr.db_number tag fits in
            rw fits (
              (
                (
                  extend-IsSegment s tag fits (ahead.0 key.0 key.1) all.0.0,
                  extend-IsBounded s tag fits all.0.1,
                ),
                tt,
              ),
              ahead,
            )
        | inr full ↦ rw full (
          (
            all.0,
            (
              (
                new_segment-IsSegment tag,
                new_segment-IsBounded tag.addr.area tag.addr.db_number tag,
              ),
              tt,
            ),
          ),
          (ahead.0, ((λ a d. omega arith), tt)),
        )
      ]
  append-IsPlanned (s ∷ t ∷ ss) tag ahead all =
      let rest = append-IsPlanned (t ∷ ss) tag ahead.1 all.1 in ((all.0, rest.0), (ahead.0, rest.1))
