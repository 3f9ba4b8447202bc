-- ===== src/Modbus/Whole.antt =====
-- driver/modbus/modbus_read.go: `Read` compared with the reads of its tags one by one.
use core_c.Common.{
  ℕ, ◌+◌, ◌≤◌, ◌≡◌, refl, sym, ap, ◌∙◌, inl, inr, Bool, not, Option, none, some, List, [], ◌∷◌,
  ◌++◌, arith, ◌==◌, nat_key, All, All-append, Bool-cases, Option-cases,
}
use mathlib.Core.Path.{subst}
use core_c.Common.Maps.{lookup}
use core_c.Common.Sort.{sort_by, All-sort_by}
use core_c.Core.{DataType, type_bool}
use core_c.Modbus.{
  AreaType, area_coil, area_discrete_input, area_input_register, area_holding_register, RegType,
  Value, Reading, done, bool_value, word_value, Client, ModbusTag, BatchTagReq, ReadBatch, reg_type,
  register_quantity, requests, group_area, merge_batches, area_batches,
}
use core_c.Modbus.Access.{
  TagResult, not_found, as_value, then_read, read_tag, read_typed, read_bool_tag, on_answer,
  each_value, read_batch, read_batches, perform_batch_reads, value_or_read, result_of_reading,
  assemble, read_tags,
}
use core_c.Modbus.Plan.{addr_of, merge_batches-All}
use core_c.Modbus.Decode.{IsDevice, value_at, number_at}
use core_c.Modbus.Requests.{
  IsPlannable, FitsTag, IsTable, IsOf, requests-IsOf, table, table-IsTable_whole, group_area-All,
  group_area-IsPlannable, All-both,
}
use core_c.Modbus.Reads.{register_alone, batchable_bool, read_batch-each_value}

-- Each tag read by itself.
abbrev pub read_each : Client → List (Option ModbusTag) → Reading (List TagResult)
read_each c [] = done []
read_each c (none ∷ tags) = then_read (read_each c tags) (λ rs. done (not_found ∷ rs))
read_each c (some t ∷ tags) =
    then_read (result_of_reading t (read_tag c t.ai t.dt))
      (λ r. then_read (read_each c tags) (λ rs. done (r ∷ rs)))

-- The reading has a value.
abbrev HasValue : Reading Value → Type 0
HasValue r = (v : Value) × (r ≡ done v)

as_value-HasValue : (dt : DataType) (n : ℕ) → HasValue (as_value dt (done n))
unfolding as_value
as_value-HasValue type_bool n = (bool_value (not (n == 0)), refl)
as_value-HasValue dt n = (word_value dt n, refl)

of_register :
    (c : Client) (w : ℕ → ℕ) (r : BatchTagReq)
    → read_tag c r.ai r.dt ≡ value_at w r.ai.addr r.dt
    → HasValue (read_tag c r.ai r.dt)
of_register c w r e =
    let (v, f) = as_value-HasValue r.dt (number_at w r.ai.addr (register_quantity r.dt).0 0) in
    (v, e ∙ f)

module _ (c : Client) (at : ℕ → Option ModbusTag) where
  -- The value is the one that the tag of this index has by itself.
  abbrev IsOwn : ℕ × Value → Type 0
  IsOwn p = (t : ModbusTag) × (at p.0 ≡ some t) × (read_tag c t.ai t.dt ≡ done p.1)

  -- The reading gives values, each its tag's own.
  abbrev GivesOwn : Reading (List (ℕ × Value)) → Type 0
  GivesOwn r = (vs : List (ℕ × Value)) × (r ≡ done vs) × All IsOwn vs

  each_value-GivesOwn :
      (rs : List BatchTagReq)
      → All (λ (r : BatchTagReq). IsOf at r × HasValue (read_tag c r.ai r.dt)) rs
      → GivesOwn (each_value (λ r. read_tag c r.ai r.dt) rs)
  unfolding each_value then_read
  each_value-GivesOwn [] all = ([], refl, tt)
  each_value-GivesOwn (r ∷ rs) (((t, found, same_ai, same_dt), (v, e)), all) =
      let (vs, out, own) = each_value-GivesOwn rs all in
      (
        (r.index, v) ∷ vs,
        rw (e, out) refl,
        ((t, found, ap (λ a. read_tag c a t.dt) same_ai ∙ ap (read_tag c r.ai) same_dt ∙ e), own),
      )

  read_batches-GivesOwn :
      (bs : List ReadBatch)
      → All (λ (b : ReadBatch). GivesOwn (read_batch c b)) bs
      → GivesOwn (read_batches c bs)
  unfolding read_batches then_read
  read_batches-GivesOwn [] all = ([], refl, tt)
  read_batches-GivesOwn (b ∷ bs) ((vs, e, own), all) =
      let (more, out, own') = read_batches-GivesOwn bs all in
      (vs ++ more, rw (read_batches, e, out) refl, All-append IsOwn vs more own own')

  perform_batch_reads-GivesOwn :
      (areas : List AreaType) (max_batch : ℕ) (reqs : List BatchTagReq)
      → ((area : AreaType) → GivesOwn (read_batches c (area_batches area reqs max_batch)))
      → GivesOwn (perform_batch_reads c areas max_batch reqs)
  unfolding perform_batch_reads then_read
  perform_batch_reads-GivesOwn [] max_batch reqs h = ([], refl, tt)
  perform_batch_reads-GivesOwn (area ∷ areas) max_batch reqs h =
      let (vs, e, own) = h area in
      let (more, out, own') = perform_batch_reads-GivesOwn areas max_batch reqs h in
      (vs ++ more, rw (e, out) refl, All-append IsOwn vs more own own')

  lookup-IsOwn :
      (n : ℕ) (values : List (ℕ × Value)) (v : Value)
      → All IsOwn values
      → lookup n values ≡ some v
      → IsOwn (n, v)
  unfolding lookup
  lookup-IsOwn n [] v all h = cc h
  lookup-IsOwn n ((i, w) ∷ values) v (own, all) h = elim (Bool-cases (i == n)) [
    | inl here ↦
        let (t, at_i, reads) = own in
        let same = (nat_key.same_iff i n).0 here in
        let value : w ≡ v = ground (arith, here, h) in
        (t, ap at (sym same) ∙ at_i, reads ∙ ap (λ (x : Value). done x) value)
    | inr there ↦ lookup-IsOwn n values v all (ground (arith, there, h))
  ]

  assemble-each :
      (values : List (ℕ × Value)) (n : ℕ) (tags : List (Option ModbusTag))
      → All IsOwn values
      → IsTable at n tags
      → assemble c values n tags ≡ read_each c tags
  unfolding assemble value_or_read
  assemble-each values n [] own h = refl
  assemble-each values n (none ∷ tags) own (e, h) =
      ap (λ (r : Reading (List TagResult)). then_read r (λ rs. done (not_found ∷ rs)))
        (assemble-each values (n + 1) tags own h)
  assemble-each values n (some t ∷ tags) own (e, h) = elim (Option-cases (lookup n values)) [
    | inl absent ↦ rw (absent, assemble-each values (n + 1) tags own h) refl
    | inr (v, found) ↦
        let (t', at_n, reads) = lookup-IsOwn n values v own found in
        let same : t' ≡ t = cc (sym at_n ∙ e) in
        let reads' : read_tag c t.ai t.dt ≡ done v =
          subst (λ (s : ModbusTag). read_tag c s.ai s.dt ≡ done v) same reads in
        rw (found, reads', assemble-each values (n + 1) tags own h) refl
  ]

module _ (c : Client) (words : RegType → ℕ → ℕ) (coils inputs : ℕ → Bool)
    (device : IsDevice c words coils inputs) where
  alone-HasValue :
      (area : AreaType) (max_batch : ℕ) (r : BatchTagReq)
      → IsPlannable area max_batch r
      → HasValue (read_tag c r.ai r.dt)
  unfolding read_tag read_typed read_bool_tag on_answer
  alone-HasValue area_coil max_batch r (req, fit) =
      let (boolean, one) = batchable_bool c words coils inputs device r area_coil refl req in
      (bool_value (coils r.ai.addr), rw (boolean, req.0, device.coil_answers r.ai.addr) refl)
  alone-HasValue area_discrete_input max_batch r (req, fit) =
      let (boolean, one) =
        batchable_bool c words coils inputs device r area_discrete_input refl req in
      (bool_value (inputs r.ai.addr), rw (boolean, req.0, device.input_answers r.ai.addr) refl)
  alone-HasValue area_input_register max_batch r (req, (fit, small, full)) =
      of_register c (words (reg_type r.ai.area)) r
        (register_alone c words coils inputs device r area_input_register refl req fit)
  alone-HasValue area_holding_register max_batch r (req, (fit, small, full)) =
      of_register c (words (reg_type r.ai.area)) r
        (register_alone c words coils inputs device r area_holding_register refl req fit)

  batches-GivesOwn :
      (area : AreaType) (tags : List (Option ModbusTag)) (max_batch : ℕ)
      → 4 ≤ max_batch
      → max_batch ≤ 125
      → All FitsTag tags
      → GivesOwn c (table tags) (read_batches c (area_batches area (requests 0 tags) max_batch))
  unfolding area_batches
  batches-GivesOwn area tags max_batch h k fits =
      let group = group_area area (requests 0 tags) in
      let sorted = sort_by addr_of group in
      let P : BatchTagReq → Type 0 = λ r. IsOf (table tags) r × HasValue (read_tag c r.ai r.dt) in
      let all : All P group =
        All-both (IsOf (table tags)) (IsPlannable area max_batch) P
          (λ r of plan. (of, alone-HasValue area max_batch r plan)) group
          (group_area-All (IsOf (table tags)) area (requests 0 tags)
            (requests-IsOf (table tags) 0 tags (table-IsTable_whole tags)))
          (group_area-IsPlannable area max_batch 0 tags h fits) in
      read_batches-GivesOwn c (table tags) (merge_batches area sorted max_batch) (
        All-both _ (λ (b : ReadBatch). (b.area ≡ area) × All P b.indices) _
          (λ b same own.
            subst (GivesOwn c (table tags)) (sym same)
              (each_value-GivesOwn c (table tags) b.indices own.1))
          (merge_batches area sorted max_batch)
          (read_batch-each_value c words coils inputs device area tags max_batch h k fits)
          (merge_batches-All P area sorted max_batch (All-sort_by P addr_of group all)))

  -- On a device that answers every read of up to 125 places within the 65536 addresses from its
  -- memory, with a batch limit from 4 to 125, in whatever order the areas are read, and if every
  -- configured tag ends below address 65535 (its address plus its quantity is below 65536), `Read`
  -- with its merged reads gives exactly the results that reading each configured tag by itself and
  -- transforming its value gives, in input order, with an error result for each tag that is not
  -- configured.
  pub read_tags-each :
      (areas : List AreaType) (tags : List (Option ModbusTag)) (max_batch : ℕ)
      → 4 ≤ max_batch
      → max_batch ≤ 125
      → All FitsTag tags
      → read_tags c areas max_batch tags ≡ read_each c tags
  unfolding read_tags then_read
  read_tags-each areas tags max_batch h k fits =
      let (values, e, own) =
        perform_batch_reads-GivesOwn c (table tags) areas max_batch (requests 0 tags)
          (λ area. batches-GivesOwn area tags max_batch h k fits) in
      rw e (assemble-each c (table tags) values 0 tags own (table-IsTable_whole tags))
