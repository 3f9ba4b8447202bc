-- ===== src/ReplayWindow/Bound.antt =====
-- transport/mqtt/replay_window.go: the window against its size.
use mathlib.Core.Path.{subst}
use core_c.Common.{
  ℕ, suc, ◌≤◌, ◌≡◌, ◌⊎◌, refl, sym, ap, ◌∙◌, ◌-◌, if◌then◌else◌, inl, inr, String, Bool, true,
  false, ◌||◌, none, some, List, [], ◌∷◌, arith, ltb, leb, ◌==◌, string_key, length, Bool-cases,
  Option-cases,
}
use core_c.Common.Maps.{
  lookup, HasDistinctKeys, insert-HasDistinctKeys, delete-HasDistinctKeys, length-insert_new,
  length-delete_old, lookup-delete, lookup-insert, lookup-insert_self, insert,
}
use core_c.ReplayWindow.{ReplayWindow, oldest_key, make_room, check_and_add, fresh, evict_expired}

-- Each hash stands once, none is empty, and there are no more than fit.
abbrev pub IsWindow : ReplayWindow → Type 0
IsWindow w = HasDistinctKeys w.seen × (lookup "" w.seen ≡ none) × (length w.seen ≤ w.max_size)

-- The key is this one, or stands in the list.
abbrev IsKeyOrThere : String → List (String × ℕ) → String → Type 0
IsKeyOrThere key m r = (r ≡ key) ⊎ ((t : ℕ) × (lookup r m ≡ some t))

there_later :
    (k : String) (t : ℕ) (m : List (String × ℕ)) (r : String) (u : ℕ)
    → lookup r m ≡ some u
    → (v : ℕ) × (lookup r ((k, t) ∷ m) ≡ some v)
unfolding lookup
there_later k t m r u e = elim (Bool-cases (string_key.same k r)) [
  | inl here ↦ (t, rw here refl)
  | inr further ↦ (u, rw further e)
]

first_or_later :
    (k : String) (t : ℕ) (m : List (String × ℕ)) (r : String)
    → IsKeyOrThere k m r
    → (v : ℕ) × (lookup r ((k, t) ∷ m) ≡ some v)
unfolding lookup
first_or_later k t m r (inl e) = (t, rw ((string_key.same_iff k r).1 (sym e)) refl)
first_or_later k t m r (inr (u, e)) = there_later k t m r u e

key_or_later :
    (key k : String) (t : ℕ) (m : List (String × ℕ)) (r : String)
    → IsKeyOrThere key m r
    → IsKeyOrThere key ((k, t) ∷ m) r
key_or_later key k t m r (inl e) = inl e
key_or_later key k t m r (inr (u, e)) = inr (there_later k t m r u e)

oldest_key-older :
    (key k : String) (time t : ℕ) (m : List (String × ℕ))
    → ((key == "") || ltb t time) ≡ true
    → oldest_key key time ((k, t) ∷ m) ≡ oldest_key k t m
unfolding oldest_key
oldest_key-older key k time t m older = rw (older, oldest_key) refl

oldest_key-younger :
    (key k : String) (time t : ℕ) (m : List (String × ℕ))
    → ((key == "") || ltb t time) ≡ false
    → oldest_key key time ((k, t) ∷ m) ≡ oldest_key key time m
unfolding oldest_key
oldest_key-younger key k time t m younger = rw (younger, oldest_key) refl

oldest_key_cases :
    (key : String) (time : ℕ) (m : List (String × ℕ)) → IsKeyOrThere key m (oldest_key key time m)
unfolding oldest_key
oldest_key_cases key time [] = inl refl
oldest_key_cases key time ((k, t) ∷ m) = elim (Bool-cases ((key == "") || ltb t time)) [
  | inl older ↦
      subst (λ r. IsKeyOrThere key ((k, t) ∷ m) r) (sym (oldest_key-older key k time t m older))
        (inr (first_or_later k t m (oldest_key k t m) (oldest_key_cases k t m)))
  | inr younger ↦
      subst (λ r. IsKeyOrThere key ((k, t) ∷ m) r) (sym (oldest_key-younger key k time t m younger))
        (key_or_later key k t m (oldest_key key time m) (oldest_key_cases key time m))
]

-- The entry that makes room is there.
oldest_key_there :
    (m : List (String × ℕ)) → 1 ≤ length m → (t : ℕ) × (lookup (oldest_key "" 0 m) m ≡ some t)
oldest_key_there [] h = absurd (omega arith)
oldest_key_there ((k, t) ∷ m) h =
    subst (λ r. (u : ℕ) × (lookup r ((k, t) ∷ m) ≡ some u)) (sym (oldest_key-older "" k 0 t m refl))
      (first_or_later k t m (oldest_key k t m) (oldest_key_cases k t m))

make_room_lem :
    (w : ReplayWindow)
    → 1 ≤ w.max_size
    → IsWindow w
    → HasDistinctKeys (make_room w)
      × (suc (length (make_room w)) ≤ w.max_size)
      × ((k : String) → lookup k w.seen ≡ none → lookup k (make_room w) ≡ none)
unfolding make_room
make_room_lem w some_room (d, e, h) = elim (Bool-cases (leb w.max_size (length w.seen))) [
  | inr room ↦ rw room (d, ground arith, λ k new. new)
  | inl full ↦
      let old = oldest_key_there w.seen (ground arith) in
      rw full (
        delete-HasDistinctKeys (oldest_key "" 0 w.seen) w.seen d,
        omega (arith, length-delete_old (oldest_key "" 0 w.seen) old.0 w.seen d old.1),
        λ k new. ground (arith, lookup-delete (oldest_key "" 0 w.seen) k w.seen),
      )
]

fresh_absent :
    (now ttl : ℕ) (k : String) (m : List (String × ℕ))
    → lookup k m ≡ none
    → lookup k (fresh now ttl m) ≡ none
unfolding lookup fresh
fresh_absent now ttl k [] h = refl
fresh_absent now ttl k ((j, t) ∷ m) h = ground (arith, fresh_absent now ttl k m)

-- What an eviction leaves of an entry.
lookup-fresh :
    (now ttl : ℕ) (k : String) (t : ℕ) (m : List (String × ℕ))
    → HasDistinctKeys m
    → lookup k m ≡ some t
    → lookup k (fresh now ttl m) ≡ (if ltb ttl (now - t) then none else some t)
unfolding lookup fresh
lookup-fresh now ttl k t [] d h = ground arith
lookup-fresh now ttl k t ((j, u) ∷ m) d h = elim (Bool-cases (string_key.same j k)) [
  | inl here ↦
      let same : u ≡ t = ground arith in
      let absent : lookup k m ≡ none =
        ap (λ i. lookup i m) (sym ((string_key.same_iff j k).0 here)) ∙ d.0 in
      elim (Bool-cases (ltb ttl (now - u))) [
        | inl old ↦ rw (old, sym same, old) (fresh_absent now ttl k m absent)
        | inr young ↦ rw (young, sym same, young) (rw here refl)
      ]
  | inr there ↦ ground (arith, lookup-fresh now ttl k t m d.1)
]

check_seen :
    (hash : String) (t later : ℕ) (w : ReplayWindow)
    → lookup hash w.seen ≡ some t
    → (check_and_add hash later w).0 ≡ false
unfolding check_and_add
check_seen hash t later w seen = rw (seen, check_and_add) refl

check_new :
    (hash : String) (later : ℕ) (w : ReplayWindow)
    → lookup hash w.seen ≡ none
    → check_and_add hash later w ≡ (true, record w { seen = insert hash later (make_room w) })
unfolding check_and_add
check_new hash later w new = rw (new, check_and_add) refl

evict_expired-lookup :
    (hash : String) (t evicted : ℕ) (w : ReplayWindow)
    → HasDistinctKeys w.seen
    → lookup hash w.seen ≡ some t
    → lookup hash (evict_expired evicted w).seen
      ≡ (if ltb w.ttl (evicted - t) then none else some t)
unfolding evict_expired
evict_expired-lookup hash t evicted w d there = lookup-fresh evicted w.ttl hash t w.seen d there

-- After an eviction, a hash that was seen is taken for new if it was seen longer ago than the TTL.
check_evicted :
    (hash : String) (t evicted later : ℕ) (w : ReplayWindow)
    → HasDistinctKeys w.seen
    → lookup hash w.seen ≡ some t
    → (check_and_add hash later (evict_expired evicted w)).0 ≡ ltb w.ttl (evicted - t)
check_evicted hash t evicted later w d there =
    let left = evict_expired-lookup hash t evicted w d there in
    elim (Bool-cases (ltb w.ttl (evicted - t))) [
      | inl old ↦
          ap (λ (r : Bool × ReplayWindow). r.0)
            (check_new hash later (evict_expired evicted w) (left ∙ rw old refl))
          ∙ sym old
      | inr young ↦
          check_seen hash t later (evict_expired evicted w) (left ∙ rw young refl) ∙ sym young
    ]

-- What a check makes of the window, and the same check again.
check_and_add_keeps :
    (hash : String) (now : ℕ) (w : ReplayWindow)
    → ((hash == "") ≡ false)
    → 1 ≤ w.max_size
    → IsWindow w
    → IsWindow (check_and_add hash now w).1
      × ((t : ℕ) × (lookup hash (check_and_add hash now w).1.seen ≡ some t))
unfolding check_and_add
check_and_add_keeps hash now w hashed some_room all = elim (Option-cases (lookup hash w.seen)) [
  | inr (t, known) ↦ rw (known, check_and_add) (all, (t, known))
  | inl new ↦
      let room = make_room_lem w some_room all in
      rw (new, check_and_add)
        (
          (
            insert-HasDistinctKeys hash now (make_room w) room.0,
            ground (arith, lookup-insert hash "" now (make_room w), room.2 "" all.1),
            omega (arith, length-insert_new hash now (make_room w) (room.2 hash new), room.1),
          ),
          (now, lookup-insert_self hash now (make_room w)),
        )
]

check_again :
    (hash : String) (now : ℕ) (w : ReplayWindow)
    → IsWindow (check_and_add hash now w).1
    → lookup hash w.seen ≡ none
    → (evicted later : ℕ)
    → (check_and_add hash later (evict_expired evicted (check_and_add hash now w).1)).0
      ≡ ltb w.ttl (evicted - now)
check_again hash now w kept new evicted later =
    let added = ap (λ (r : Bool × ReplayWindow). r.1) (check_new hash now w new) in
    subst
      (λ (v : ReplayWindow).
        (check_and_add hash later (evict_expired evicted v)).0 ≡ ltb w.ttl (evicted - now))
      (sym added)
      (check_evicted hash now evicted later (record w { seen = insert hash now (make_room w) })
        (subst (λ (v : ReplayWindow). HasDistinctKeys v.seen) added kept.0)
        (lookup-insert_self hash now (make_room w)))

-- On a window of positive size with each hash once, none of them empty, and no more than fit,
-- checking a hash that is not empty keeps all that, also when the oldest entry has to make room;
-- checking the same hash next, at any time and without an eviction in between, answers that it is
-- a replay; and if the hash was new, checking it after one eviction takes it for new exactly when
-- that eviction ran more than the TTL after the first check.
pub check_and_add-IsWindow :
    (hash : String) (now : ℕ) (w : ReplayWindow)
    → ((hash == "") ≡ false)
    → 1 ≤ w.max_size
    → IsWindow w
    → IsWindow (check_and_add hash now w).1
      × ((later : ℕ) → (check_and_add hash later (check_and_add hash now w).1).0 ≡ false)
      × (lookup hash w.seen ≡ none
          → (evicted later : ℕ)
          → (check_and_add hash later (evict_expired evicted (check_and_add hash now w).1)).0
            ≡ ltb w.ttl (evicted - now))
check_and_add-IsWindow hash now w hashed some_room all =
    let (kept, (t, there)) = check_and_add_keeps hash now w hashed some_room all in
    (
      kept,
      λ later. check_seen hash t later (check_and_add hash now w).1 there,
      check_again hash now w kept,
    )
