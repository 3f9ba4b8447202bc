-- ===== src/Engine/Processing/Chains.antt =====
-- engine/processing.go: the counters and the batchers after a list of publishes.
use core_c.Common.{
  ℕ, ◌+◌, ◌≡◌, refl, ap, sym, ◌∙◌, String, not, ◌&&◌, Option, none, some, List, [], ◌∷◌, ◌++◌,
  if◌then◌else◌, ◌==◌, string_key, nat_key, append_assoc, append-nil, arith,
}
use core_c.Common.Maps.{lookup}
use core_c.Engine.Batcher.{BatcherBufferState, publish_point}
use core_c.Engine.Processing.Targets.{PublishAttempt, Delivery}

module _ {V : Type 0} where
  -- The attempts that failed, and the direct ones that succeeded.
  unfoldable pub failures : List (PublishAttempt V) → ℕ
  failures [] = 0
  failures (a ∷ as') = (if a.succeeded then 0 else 1) + failures as'

  unfoldable pub published_directly : List (PublishAttempt V) → ℕ
  published_directly [] = 0
  published_directly (a ∷ as') =
      (if a.succeeded && not a.batched then 1 else 0) + published_directly as'

  -- What is left of a batcher after the attempts that went through it.
  unfoldable pub after_attempts :
      String
      → Option (BatcherBufferState V)
      → List (PublishAttempt V)
      → Option (BatcherBufferState V)
  after_attempts name b [] = b
  after_attempts name none (a ∷ as') = none
  after_attempts name (some b) (a ∷ as') =
      after_attempts name (some (if a.target == name then (publish_point a.point b).1 else b)) as'

  -- What a list of calls leaves of the log, the counters and the batchers.
  pub record Chain (calls : List (PublishAttempt V)) (d d' : Delivery V) : Type 0 where
    pub logged : d'.attempts ≡ d.attempts ++ calls
    pub errors : d'.total_errors ≡ d.total_errors + failures calls
    pub publishes : d'.total_publish ≡ d.total_publish + published_directly calls
    pub batched :
        (name : String)
        → lookup name d'.batchers ≡ after_attempts name (lookup name d.batchers) calls

  failures-append :
      (as' bs : List (PublishAttempt V)) → failures (as' ++ bs) ≡ failures as' + failures bs
  unfolding failures
  failures-append [] bs = omega arith
  failures-append (a ∷ as') bs = omega (arith, failures-append as' bs)

  published_directly-append :
      (as' bs : List (PublishAttempt V))
      → published_directly (as' ++ bs) ≡ published_directly as' + published_directly bs
  unfolding published_directly
  published_directly-append [] bs = omega arith
  published_directly-append (a ∷ as') bs = omega (arith, published_directly-append as' bs)

  after_attempts-none :
      (name : String) (as' : List (PublishAttempt V)) → after_attempts name none as' ≡ none
  unfolding after_attempts
  after_attempts-none name [] = refl
  after_attempts-none name (a ∷ as') = refl

  after_attempts-append :
      (name : String) (as' bs : List (PublishAttempt V)) (b : Option (BatcherBufferState V))
      → after_attempts name b (as' ++ bs) ≡ after_attempts name (after_attempts name b as') bs
  unfolding after_attempts
  after_attempts-append name [] bs b = refl
  after_attempts-append name (a ∷ as') bs none = sym (after_attempts-none name bs)
  after_attempts-append name (a ∷ as') bs (some b) = after_attempts-append name as' bs (some _)

  pub Chain-nil : (d : Delivery V) → Chain [] d d
  unfolding failures published_directly after_attempts
  Chain-nil d = record {
    logged = sym (append-nil d.attempts);
    errors = omega arith;
    publishes = omega arith;
    batched = λ name. refl;
  }

  pub Chain-append :
      (as' bs : List (PublishAttempt V)) (d d' d'' : Delivery V)
      → Chain as' d d'
      → Chain bs d' d''
      → Chain (as' ++ bs) d d''
  Chain-append as' bs d d' d'' p q = record {
    logged = q.logged ∙ ap (λ l. l ++ bs) p.logged ∙ append_assoc d.attempts as' bs;
    errors = omega (arith, p.errors, q.errors, failures-append as' bs);
    publishes = omega (arith, p.publishes, q.publishes, published_directly-append as' bs);
    batched = λ name.
        q.batched name
        ∙ ap (λ b. after_attempts name b bs) (p.batched name)
        ∙ sym (after_attempts-append name as' bs (lookup name d.batchers));
  }
