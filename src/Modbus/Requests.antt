-- ===== src/Modbus/Requests.antt =====
-- driver/modbus/modbus_read.go: the requests of `Read`, and the group of an area.
use core_c.Common.{
  ℕ, ◌+◌, ◌-◌, ◌≤◌, ◌<◌, ◌≡◌, refl, sym, ap, ◌∙◌, inl, inr, Bool, true, false, ◌&&◌, Option, none,
  some, zero, suc, List, [], ◌∷◌, arith, ◌==◌, nat_key, All, Bool-cases,
}
use core_c.Core.{
  DataType, type_bool, type_int16, type_int32, type_int64, type_uint16, type_uint32, type_uint64,
  type_float32, type_float64,
}
use core_c.Modbus.{
  AreaType, area_coil, area_discrete_input, area_input_register, area_holding_register, area_number,
  AddrInfo, Value, Reading, ModbusTag, BatchTagReq, ReadBatch, is_bit_area, is_bool,
  register_quantity, batch_quantity, requests, group_area,
}
use core_c.Modbus.Access.{offset_in, each_value}
use core_c.Modbus.Plan.{Fits}

-- The request of a batchable tag of this area.
abbrev pub IsRequest : AreaType → BatchTagReq → Type 0
IsRequest area r =
    (r.ai.area ≡ area)
    × (r.batchable ≡ true)
    × (r.qty ≡ (batch_quantity r.ai r.dt).0)
    × (r.batchable ≡ (batch_quantity r.ai r.dt).1)

-- The quantity of a type that fits is positive and at most 4.
quantity_bounds :
    (dt : DataType)
    → (register_quantity dt).1 ≡ true
    → (1 ≤ (register_quantity dt).0) × ((register_quantity dt).0 ≤ 4)
quantity_bounds type_bool ok = omega arith
quantity_bounds type_uint16 ok = omega arith
quantity_bounds type_int16 ok = omega arith
quantity_bounds type_uint32 ok = omega arith
quantity_bounds type_int32 ok = omega arith
quantity_bounds type_float32 ok = omega arith
quantity_bounds type_float64 ok = omega arith
quantity_bounds type_uint64 ok = omega arith
quantity_bounds type_int64 ok = omega arith
quantity_bounds dt ok = cc ok

pub is_bool_lem : (dt : DataType) → is_bool dt ≡ true → dt ≡ type_bool
is_bool_lem type_bool h = refl
is_bool_lem dt h = cc h

pub offset_lem :
    (b : ReadBatch) (r : BatchTagReq)
    → b.start ≤ r.ai.addr
    → r.ai.addr < 65_536
    → (offset_in b r ≡ r.ai.addr - b.start) × (b.start + offset_in b r ≡ r.ai.addr)
offset_lem b r h k = ground arith

pub each_value-congr :
    (f g : BatchTagReq → Reading Value) (rs : List BatchTagReq)
    → All (λ (r : BatchTagReq). f r ≡ g r) rs
    → each_value f rs ≡ each_value g rs
unfolding each_value
each_value-congr f g [] all = refl
each_value-congr f g (r ∷ rs) (e, all) = rw (e, each_value-congr f g rs all) refl

pub All-both :
    {A : Type 0} (P Q R : A → Type 0)
    → ((a : A) → P a → Q a → R a)
    → (xs : List A) → All P xs
    → All Q xs
    → All R xs
All-both P Q R f [] ps qs = tt
All-both P Q R f (x ∷ xs) (p, ps) (q, qs) = (f x p q, All-both P Q R f xs ps qs)

same_area : (a area : AreaType) → (area_number a == area_number area) ≡ true → a ≡ area
same_area area_coil area_coil h = refl
same_area area_discrete_input area_discrete_input h = refl
same_area area_input_register area_input_register h = refl
same_area area_holding_register area_holding_register h = refl
same_area a area h = cc h

batch_quantity_bounds :
    (ai : AddrInfo) (dt : DataType)
    → (batch_quantity ai dt).1 ≡ true
    → (1 ≤ (batch_quantity ai dt).0) × ((batch_quantity ai dt).0 ≤ 4)
unfolding batch_quantity
batch_quantity_bounds ai dt ok = elim (Bool-cases (is_bit_area ai.area)) [
  | inr register ↦
      let same : batch_quantity ai dt ≡ register_quantity dt = rw register refl in
      let (low, high) = quantity_bounds dt (sym (ap (λ (q : ℕ × Bool). q.1) same) ∙ ok) in
      (
        omega (arith, ap (λ (q : ℕ × Bool). q.0) same),
        omega (arith, ap (λ (q : ℕ × Bool). q.0) same),
      )
  | inl bits ↦ elim (Bool-cases (is_bool dt)) [
    | inl boolean ↦ rw (bits, boolean) (omega arith, omega arith)
    | inr other ↦
        let zero_q : batch_quantity ai dt ≡ (0, false) = rw (bits, other) refl in
        absurd (cc (sym ok ∙ ap (λ (p : ℕ × Bool). p.1) zero_q))
  ]
]

-- What the requests of tags that fit have, in the group of an area.
abbrev pub IsPlannable : AreaType → ℕ → BatchTagReq → Type 0
IsPlannable area max_batch r = IsRequest area r × (Fits r × (r.qty ≤ max_batch) × (1 ≤ r.qty))

-- A tag that is configured ends below the last address.
abbrev pub FitsTag : Option ModbusTag → Type 0
FitsTag none = Unit {0}
FitsTag (some t) = t.ai.addr + (batch_quantity t.ai t.dt).0 < 65_536

pub group_area-IsPlannable :
    (area : AreaType) (max_batch n : ℕ) (tags : List (Option ModbusTag))
    → 4 ≤ max_batch
    → All FitsTag tags
    → All (IsPlannable area max_batch) (group_area area (requests n tags))
unfolding group_area requests
group_area-IsPlannable area max_batch n [] h fits = tt
group_area-IsPlannable area max_batch n (none ∷ tags) h (fit, fits) =
    group_area-IsPlannable area max_batch (n + 1) tags h fits
group_area-IsPlannable area max_batch n (some t ∷ tags) h (fit, fits) =
    let rest = group_area-IsPlannable area max_batch (n + 1) tags h fits in
    elim (Bool-cases ((batch_quantity t.ai t.dt).1 && area_number t.ai.area == area_number area)) [
      | inr other ↦ rw (group_area, other) rest
      | inl here ↦
          let ok : (batch_quantity t.ai t.dt).1 ≡ true = ground (arith, here) in
          let at : (area_number t.ai.area == area_number area) ≡ true = ground (arith, here) in
          let (low, high) = batch_quantity_bounds t.ai t.dt ok in
          rw (group_area, here)
            (((same_area t.ai.area area at, ok, refl, refl), (fit, omega arith, low)), rest)
    ]

pub group_area-All :
    (P : BatchTagReq → Type 0) (area : AreaType) (reqs : List BatchTagReq)
    → All P reqs
    → All P (group_area area reqs)
unfolding group_area
group_area-All P area [] all = tt
group_area-All P area (r ∷ reqs) (p, all) =
    elim (Bool-cases (r.batchable && area_number r.ai.area == area_number area)) [
      | inl here ↦ rw (group_area, here) (p, group_area-All P area reqs all)
      | inr other ↦ rw (group_area, other) (group_area-All P area reqs all)
    ]

-- From the index `n` on, this is the table of the tags.
abbrev pub IsTable : (ℕ → Option ModbusTag) → ℕ → List (Option ModbusTag) → Type 0
IsTable at n [] = Unit {0}
IsTable at n (t ∷ tags) = (at n ≡ t) × IsTable at (n + 1) tags

-- The request is for the tag of its index.
abbrev pub IsOf : (ℕ → Option ModbusTag) → BatchTagReq → Type 0
IsOf at r = (t : ModbusTag) × (at r.index ≡ some t) × (t.ai ≡ r.ai) × (t.dt ≡ r.dt)

pub requests-IsOf :
    (at : ℕ → Option ModbusTag) (n : ℕ) (tags : List (Option ModbusTag))
    → IsTable at n tags
    → All (IsOf at) (requests n tags)
unfolding requests
requests-IsOf at n [] h = tt
requests-IsOf at n (none ∷ tags) (e, h) = requests-IsOf at (n + 1) tags h
requests-IsOf at n (some t ∷ tags) (e, h) = ((t, e, refl, refl), requests-IsOf at (n + 1) tags h)

-- The table of a list.
abbrev pub table : List (Option ModbusTag) → ℕ → Option ModbusTag
table [] i = none
table (t ∷ tags) zero = t
table (t ∷ tags) (suc i) = table tags i

IsTable-congr :
    (f g : ℕ → Option ModbusTag) (n : ℕ) (tags : List (Option ModbusTag))
    → ((i : ℕ) → n ≤ i → f i ≡ g i)
    → IsTable f n tags
    → IsTable g n tags
IsTable-congr f g n [] h all = tt
IsTable-congr f g n (t ∷ tags) h (e, all) =
    (sym (h n (omega arith)) ∙ e, IsTable-congr f g (n + 1) tags (λ i k. h i (omega arith)) all)

table-IsTable : (n : ℕ) (tags : List (Option ModbusTag)) → IsTable (λ i. table tags (i - n)) n tags
table-IsTable n [] = tt
table-IsTable n (t ∷ tags) =
    let zero_lem : n - n ≡ 0 = omega arith in
    (
      ap (table (t ∷ tags)) zero_lem,
      IsTable-congr (λ i. table tags (i - (n + 1))) (λ i. table (t ∷ tags) (i - n)) (n + 1) tags
          (λ i k.
            let next : i - n ≡ suc (i - (n + 1)) = omega arith in sym (ap (table (t ∷ tags)) next))
          (table-IsTable (n + 1) tags),
    )

pub table-IsTable_whole : (tags : List (Option ModbusTag)) → IsTable (table tags) 0 tags
table-IsTable_whole tags =
    IsTable-congr (λ i. table tags (i - 0)) (table tags) 0 tags
      (λ i k. ap (table tags) (omega arith)) (table-IsTable 0 tags)
