-- ===== src/S7/Reads.antt =====
-- driver/s7/s7_merge.go: what a tag is decoded from.
use core_c.Common.{
  ℕ, zero, suc, ◌+◌, ◌-◌, ◌≤◌, ◌≡◌, refl, sym, ap, ◌∙◌, List, [], ◌∷◌, arith, All, take, drop,
  take_nil, drop-drop, drop_congr,
}
use core_c.S7.{S7ReadTag, S7ReadSegment, plan_s7_read_segments, sub_buffer}
use core_c.S7.Segments.{IsWithinSegment, IsPlanned}
use core_c.S7.Plan.{plan_s7_read_segments-IsPlanned}

module _ {ℓ} {A : Type ℓ} where
  take-drop-take :
      (n a m : ℕ) (xs : List A) → a + n ≤ m → take n (drop a (take m xs)) ≡ take n (drop a xs)
  take-drop-take zero a m xs h = refl
  take-drop-take (suc n) a m [] h = ap (λ (l : List A). take (suc n) (drop a l)) (take_nil m)
  take-drop-take (suc n) a zero (x ∷ xs) h = absurd (omega arith)
  take-drop-take (suc n) zero (suc m) (x ∷ xs) h =
      ap (λ (l : List A). x ∷ l) (take-drop-take n 0 m xs (omega arith))
  take-drop-take (suc n) (suc a) (suc m) (x ∷ xs) h = take-drop-take (suc n) a m xs (omega arith)

-- The bytes that a read of this length returns.
abbrev pub read_bytes : (ℕ → ℕ → List ℕ) → ℕ → ℕ → ℕ → ℕ → List ℕ
read_bytes memory area db start len = take len (drop start (memory area db))

module _ {F : Type 0} (memory : ℕ → ℕ → List ℕ) where
  -- The tag's part of the segment's bytes is what a read of the tag alone returns.
  abbrev pub IsReadAlone : S7ReadSegment F → S7ReadTag F → Type 0
  IsReadAlone s t =
      sub_buffer s t (read_bytes memory s.area s.db_number s.start s.length)
      ≡ read_bytes memory t.addr.area t.addr.db_number t.addr.start t.addr.size

  within-IsReadAlone :
      (s : S7ReadSegment F) (t : S7ReadTag F)
      → IsWithinSegment s.area s.db_number s.start s.length t
      → IsReadAlone s t
  unfolding sub_buffer
  within-IsReadAlone s t (area, db, after, before) =
      take-drop-take t.addr.size (t.addr.start - s.start) s.length
        (drop s.start (memory s.area s.db_number)) (omega arith)
      ∙ ap (take t.addr.size) (
          drop-drop (t.addr.start - s.start) s.start (memory s.area s.db_number)
          ∙ drop_congr (s.start + (t.addr.start - s.start)) t.addr.start _ (omega arith))
      ∙ ap (λ a. read_bytes memory a s.db_number t.addr.start t.addr.size) (sym area)
      ∙ ap (λ d. read_bytes memory t.addr.area d t.addr.start t.addr.size) (sym db)

  entries-IsReadAlone :
      (s : S7ReadSegment F) (ts : List (S7ReadTag F))
      → All (IsWithinSegment s.area s.db_number s.start s.length) ts
      → All (IsReadAlone s) ts
  entries-IsReadAlone s [] all = tt
  entries-IsReadAlone s (t ∷ ts) all =
      (within-IsReadAlone s t all.0, entries-IsReadAlone s ts all.1)

  segments-IsReadAlone :
      (ss : List (S7ReadSegment F))
      → All IsPlanned ss
      → All (λ (s : S7ReadSegment F). All (IsReadAlone s) s.entries) ss
  segments-IsReadAlone [] all = tt
  segments-IsReadAlone (s ∷ ss) all =
      (entries-IsReadAlone s s.entries all.0.0, segments-IsReadAlone ss all.1)

  -- Whatever the memory of the controller, in every segment that the planner makes of any tags,
  -- the part of the segment's bytes that a tag is decoded from is what a read of that tag alone
  -- returns.
  pub plan_s7_read_segments-IsReadAlone :
      (tags : List (S7ReadTag F))
      → All (λ (s : S7ReadSegment F). All (IsReadAlone s) s.entries) (plan_s7_read_segments tags)
  plan_s7_read_segments-IsReadAlone tags =
      segments-IsReadAlone (plan_s7_read_segments tags) (plan_s7_read_segments-IsPlanned tags)
