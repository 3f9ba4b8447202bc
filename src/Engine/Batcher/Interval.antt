-- ===== src/Engine/Batcher/Interval.antt =====
-- engine/batcher.go: the flush interval of a new batcher.
use core_c.Common.{
  ℕ, zero, suc, ◌≡◌, refl, ◌≢◌, String, Bool, true, false, not, ◌&&◌, Option, none, some,
  if◌then◌else◌, ◌==◌, string_key, arith,
}
use core_c.Common.Ints.{is_positive}
use core_c.Engine.OfflineBuffer.{OfflineBuffer}
use core_c.Engine.Batcher.{
  TransportConfig, TransportBatcher, new_transport_batcher, has_offline, configured_flush,
  positive_or,
}

-- No field asks for a batcher.
abbrev pub is_idle : TransportConfig → Bool
is_idle t =
    not (is_positive t.batch_size) && (t.flush_interval == "") && not (is_positive t.retry_count)

abbrev pub parsed : (String → Option ℕ) → TransportConfig → Option ℕ
parsed parse t = if t.flush_interval == "" then none else parse t.flush_interval

abbrev pub or_zero : Option ℕ → ℕ
or_zero none = 0
or_zero (some n) = n

positive_or_zero : (o : Option ℕ) → positive_or o 0 ≡ or_zero o
unfolding positive_or
positive_or_zero none = refl
positive_or_zero (some zero) = refl
positive_or_zero (some (suc n)) = refl

positive_or-positive : (o : Option ℕ) (d : ℕ) → d ≢ 0 → positive_or o d ≢ 0
unfolding positive_or
positive_or-positive none d h = h
positive_or-positive (some zero) d h = h
positive_or-positive (some (suc n)) d h = ground arith

module _ {V : Type 0} (parse : String → Option ℕ) (t : TransportConfig) (budget : ℕ) where
  pub no_batcher : is_idle t ≡ true → new_transport_batcher {V = V} parse t none budget ≡ none
  unfolding new_transport_batcher has_offline
  no_batcher h = ground arith

  pub new_batcher_flush :
      is_idle t ≡ false
      → (b : TransportBatcher V) × (new_transport_batcher parse t none budget ≡ some b)
        × (b.buf.flush_interval ≡ or_zero (parsed parse t))
  unfolding new_transport_batcher has_offline configured_flush
  new_batcher_flush h = rw (new_transport_batcher, h) (_, refl, positive_or_zero (parsed parse t))

  pub buffered_flush :
      (ob : OfflineBuffer V) (b : TransportBatcher V)
      → new_transport_batcher parse t (some ob) budget ≡ some b
      → b.buf.flush_interval ≢ 0
  unfolding new_transport_batcher has_offline configured_flush
  buffered_flush ob b h z =
      positive_or-positive (parsed parse t) 5_000_000_000 (ground arith) (ground arith)
