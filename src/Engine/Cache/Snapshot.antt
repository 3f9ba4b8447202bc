-- ===== src/Engine/Cache/Snapshot.antt =====
-- engine/cache.go: the snapshot of `GetByDriver`.
use mathlib.Core.Path.{subst}
use core_c.Common.{
  ℕ, ◌≡◌, refl, sym, ap, ◌∙◌, inl, inr, String, true, false, Option, none, some, List, [], ◌∷◌,
  ◌==◌, string_key, arith, Bool-cases, Option-cases,
}
use core_c.Common.Maps.{lookup, delete}
use core_c.Core.{DataPoint}
use core_c.Engine.Cache.{
  LatestCache, DriverCache, find, put, update, get_by_driver, delete_driver, delete_tag,
  store_point, read_snapshot, rebuild,
}
use core_c.Engine.Cache.Refinement.{
  Event, updated, tag_deleted, driver_deleted, read, cleared, step, run, latest, find-put,
  find-delete_driver, find-clear, find-new, get_lem, value_in, get-run-latest,
}

module _ {V : Type 0} where
  -- A snapshot that is not marked out of date is the values.
  abbrev IsFresh : DriverCache V → Type 0
  IsFresh dc =
      dc.dirty ≡ false → (s : List (String × DataPoint V)) → dc.snapshot ≡ some s → s ≡ dc.values

  abbrev AreFresh : LatestCache V → Type 0
  AreFresh c = (driver : String) (dc : DriverCache V) → find c driver ≡ some dc → IsFresh dc

  IsFresh-found : (a b : DriverCache V) → some a ≡ some b → IsFresh a → IsFresh b
  IsFresh-found a b e h = subst (λ (dc : DriverCache V). IsFresh dc) (cc e) h

  AreFresh-put :
      (c : LatestCache V) (d : String) (dc : DriverCache V)
      → AreFresh c
      → IsFresh dc
      → AreFresh (put c d dc)
  AreFresh-put c d dc all one driver found h = elim (Bool-cases (d == driver)) [
    | inl here ↦ IsFresh-found dc found (ground (arith, find-put c d driver dc)) one
    | inr elsewhere ↦ all driver found (ground (arith, find-put c d driver dc))
  ]

  AreFresh-delete_driver :
      (c : LatestCache V) (d : String) → AreFresh c → AreFresh (delete_driver c d)
  AreFresh-delete_driver c d all driver found h = elim (Bool-cases (d == driver)) [
    | inl here ↦ absurd (ground (arith, find-delete_driver c d driver))
    | inr elsewhere ↦ all driver found (ground (arith, find-delete_driver c d driver))
  ]

  IsFresh-store_point : (o : Option (DriverCache V)) (p : DataPoint V) → IsFresh (store_point o p)
  unfolding store_point
  IsFresh-store_point none p d = cc d
  IsFresh-store_point (some dc) p d = cc d

  IsFresh-read : (dc : DriverCache V) → IsFresh dc → IsFresh (read_snapshot dc).1
  unfolding read_snapshot rebuild
  IsFresh-read dc h = elim (Bool-cases dc.dirty) [
    | inl stale ↦ rw (stale, read_snapshot) (λ d s e. cc e)
    | inr clean ↦ elim (Option-cases dc.snapshot) [
      | inl nothing ↦ rw (clean, nothing, read_snapshot) (λ d s e. cc e)
      | inr (s, there) ↦ rw (clean, there, read_snapshot) h
    ]
  ]

  read_fresh : (dc : DriverCache V) → IsFresh dc → (read_snapshot dc).0 ≡ dc.values
  unfolding read_snapshot rebuild
  read_fresh dc h = elim (Bool-cases dc.dirty) [
    | inl stale ↦ rw (stale, read_snapshot) refl
    | inr clean ↦ elim (Option-cases dc.snapshot) [
      | inl nothing ↦ rw (clean, nothing, read_snapshot) refl
      | inr (s, there) ↦ rw (clean, there, read_snapshot) (h clean s there)
    ]
  ]

  read_found :
      (c : LatestCache V) (d : String) (dc : DriverCache V)
      → find c d ≡ some dc
      → (get_by_driver c d).1 ≡ put c d (read_snapshot dc).1
  unfolding get_by_driver
  read_found c d dc there = rw (there, get_by_driver) refl

  read_missing : (c : LatestCache V) (d : String) → find c d ≡ none → (get_by_driver c d).1 ≡ c
  unfolding get_by_driver
  read_missing c d missing = rw (missing, get_by_driver) refl

  AreFresh-read : (c : LatestCache V) (d : String) → AreFresh c → AreFresh (get_by_driver c d).1
  AreFresh-read c d all = elim (Option-cases (find c d)) [
    | inl missing ↦ subst (λ (c' : LatestCache V). AreFresh c') (sym (read_missing c d missing)) all
    | inr (dc, there) ↦
        subst (λ (c' : LatestCache V). AreFresh c') (sym (read_found c d dc there))
          (AreFresh-put c d (read_snapshot dc).1 all (IsFresh-read dc (all d dc there)))
  ]

  AreFresh-step : (c : LatestCache V) (e : Event V) → AreFresh c → AreFresh (step c e)
  unfolding update delete_tag
  AreFresh-step c (updated p) all =
      AreFresh-put c p.driver (store_point (find c p.driver) p) all
        (IsFresh-store_point (find c p.driver) p)
  AreFresh-step c (tag_deleted d t) all = elim (Option-cases (find c d)) [
    | inl missing ↦ rw (missing, delete_tag) all
    | inr (dc, there) ↦
        rw (there, delete_tag)
          (AreFresh-put c d (record dc { values = delete t dc.values; dirty = true }) all
            (λ e. cc e))
  ]
  AreFresh-step c (driver_deleted d) all = AreFresh-delete_driver c d all
  AreFresh-step c (read d) all = AreFresh-read c d all
  AreFresh-step c cleared all = λ driver found h. cc (sym (find-clear c driver) ∙ h)

  AreFresh-run : (hash : String → ℕ) (es : List (Event V)) → AreFresh (run hash es)
  AreFresh-run hash [] = λ driver found h. cc (sym (find-new hash driver) ∙ h)
  AreFresh-run hash (e ∷ es) = AreFresh-step (run hash es) e (AreFresh-run hash es)

  -- A tag in what `GetByDriver` returns; a nil map has none.
  abbrev pub tag_in : Option (List (String × DataPoint V)) → String → Option (DataPoint V)
  tag_in none tag = none
  tag_in (some s) tag = lookup tag s

  -- After any history of updates, evictions of tags and of drivers, clears and reads, and whatever
  -- the hash, the map that `GetByDriver` returns holds of each tag the point of its last update
  -- that was not evicted since, also when it is the stored snapshot.
  pub get_by_driver-latest :
      (hash : String → ℕ) (es : List (Event V)) (driver tag : String)
      → tag_in (get_by_driver (run hash es) driver).0 tag ≡ latest es driver tag
  unfolding get_by_driver
  get_by_driver-latest hash es driver tag =
      snapshot_value ∙ sym (get_lem (run hash es) driver tag) ∙ get-run-latest hash es driver tag
    where
      snapshot_value :
          tag_in (get_by_driver (run hash es) driver).0 tag
          ≡ value_in (find (run hash es) driver) tag
      snapshot_value = elim (Option-cases (find (run hash es) driver)) [
        | inl missing ↦ rw (missing, get_by_driver) refl
        | inr (dc, there) ↦
            rw (there, get_by_driver)
              (ap (lookup tag) (read_fresh dc (AreFresh-run hash es driver dc there)))
      ]
