-- ===== src/Recovery/Exchange.antt =====
-- What the two parties learn from one another, and how stages move.
use psi.Prelude.{
  ℕ, ◌≤◌, ◌≡◌, refl, ◌↔◌, ◌∙◌, ap, max, Bool, true, Option, none, some, List, [], ◌∷◌, ok,
  >>=-eq-ok, arith,
}
use psi.Prelude.Count.{All}
use psi.Recovery.{
  Stage, unspecified, init_end, pre_process_end, online_start, online_end, post_process_end, order,
  RecoveryManager, internal_record, save_checkpoint_file, mark_init_end, mark_pre_process_end,
  exchange, raise_stage, mark_online_start, mark_online_end, mark_post_process_end, Call, inits,
  pre_processes, starts_online, counts_self, counts_peer, counts_buckets, ends_online,
  ends_post_process, step, run,
}

module _ {Config : Type 0} where
  -- Both ranks' views after the exchange: each has the other's counts, and they agree on whether
  -- the online stage is over, which is when both had reached its end.
  pub mark_online_start_agree :
      (m₀ m₁ : RecoveryManager Config)
      → let (m₀', over₀) = mark_online_start (some (0, internal_record m₁)) m₀ in
        let (m₁', over₁) = mark_online_start (some (1, internal_record m₀)) m₁ in
        (m₀'.ecdh_dual_masked_cnt_from_peer ≡ m₁.checkpoint.ecdh_dual_masked_item_peer_count)
        × (m₁'.ecdh_dual_masked_cnt_from_peer ≡ m₀.checkpoint.ecdh_dual_masked_item_peer_count)
        × (m₀'.parsed_bucket_count_from_peer ≡ m₁.checkpoint.parsed_bucket_count)
        × (m₁'.parsed_bucket_count_from_peer ≡ m₀.checkpoint.parsed_bucket_count)
        × (over₀ ≡ over₁)
        × ((over₀ ≡ true) ↔ (
            (order online_end ≤ order m₀.checkpoint.stage)
            × (order online_end ≤ order m₁.checkpoint.stage)))
  unfolding mark_online_start exchange raise_stage save_checkpoint_file
  mark_online_start_agree m₀ m₁ = (
    ground arith,
    ground arith,
    ground arith,
    ground arith,
    refl,
    ((λ e. ground arith), λ e. ground arith),
  )

  -- The calls that mark a stage, and the stage that each marks. Without a cryptor the end of the
  -- pre-process stage is not marked.
  abbrev pub marked : Call Config → Option Stage
  marked (inits config digest) = some init_end
  marked (pre_processes none) = some unspecified
  marked (pre_processes (some key)) = some pre_process_end
  marked (starts_online link) = some online_start
  marked ends_online = some online_end
  marked ends_post_process = some post_process_end
  marked (counts_self n) = none
  marked (counts_peer n) = none
  marked (counts_buckets n) = none

  abbrev pub Marks : Call Config → Type 0
  Marks c = (s : Stage) × (marked c ≡ some s)

  -- The furthest of the stage `k` and those that the calls mark.
  abbrev pub furthest : ℕ → List (Call Config) → ℕ
  furthest k [] = k
  furthest k (c ∷ cs) = furthest (elim (marked c) [ none ↦ k | some s ↦ max k (order s) ]) cs

  module _ (equals : Config → Config → Bool) where
    step-furthest :
        (m : RecoveryManager Config) (c : Call Config) {m' : RecoveryManager Config}
        → Marks c
        → step equals m c ≡ ok m'
        → order m'.checkpoint.stage ≡ furthest (order m.checkpoint.stage) (c ∷ [])
    unfolding step mark_init_end mark_pre_process_end mark_online_start exchange raise_stage
        save_checkpoint_file mark_online_end mark_post_process_end
    step-furthest m (inits config digest) h e = ground arith
    step-furthest m (pre_processes none) h e = ground arith
    step-furthest m (pre_processes (some key)) h e = ground arith
    step-furthest m (starts_online none) h e = ground arith
    step-furthest m (starts_online (some link)) h e = ground arith
    step-furthest m ends_online h e = ground arith
    step-furthest m ends_post_process h e = ground arith
    step-furthest m (counts_self n) h e = absurd (cc (h.1))
    step-furthest m (counts_peer n) h e = absurd (cc (h.1))
    step-furthest m (counts_buckets n) h e = absurd (cc (h.1))

    -- After calls that mark stages, `MarkInitEnd` among them, in any order and of which none throws,
    -- the stage is the furthest of the one before and those that they mark: no call goes back.
    pub run-furthest :
        (m : RecoveryManager Config) (cs : List (Call Config)) {m' : RecoveryManager Config}
        → All Marks cs
        → run equals m cs ≡ ok m'
        → order m'.checkpoint.stage ≡ furthest (order m.checkpoint.stage) cs
    unfolding run
    run-furthest m [] h e = ground arith
    run-furthest m (c ∷ cs) h e =
        let (m₁, stepped, e') = >>=-eq-ok (step equals m c) _ e in
        run-furthest m₁ cs h.1 e' ∙ ap (λ k. furthest k cs) (step-furthest m c h.0 stepped)
