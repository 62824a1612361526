-- ===== src/Quorum/Safety.antt =====
-- What the thresholds of pkg/types/quorum.go are for.
use final_weave.Prelude.{
  sym, ◌∙◌, &&-eq-true, ℕ, ◌+◌, ◌*◌, ◌≤◌, ◌<◌, ◌≡◌, ap, true, false, none, arith, pos, ◌≤ℤ◌,
  returns,
}
use final_weave.Quorum.{QuorumParameters, new_quorum_parameters, minimum_quorum_intersection}
use final_weave.Quorum.Laws.{new_quorum_parameters_iff, tuple_of, is_valid-tuple_of}
use final_weave.Quorum.Members.{
  Members, both, outside, count, count-both, count-outside, find_outside, first, from, count-first,
  count-from, count-first-from,
}

minimum_quorum_intersection-tuple_of :
    (f : ℕ) → 1 ≤ f → f ≤ 84 → minimum_quorum_intersection (tuple_of f) ≡ returns (pos (f + 1))
unfolding minimum_quorum_intersection
minimum_quorum_intersection-tuple_of f lo hi =
    rw (is_valid-tuple_of f lo hi) (ap returns (ground arith))

-- The thresholds of an accepted tuple, with f named.
record Thresholds (n : ℕ) (p : QuorumParameters) (f : ℕ) : Type 0 where
  members : n ≡ 3 * f + 1
  byzantine : p.max_byzantine ≡ pos f
  votes : p.quorum ≡ pos (2 * f + 1)
  shards : p.recovery_threshold ≡ pos (f + 1)
  overlap : minimum_quorum_intersection p ≡ returns (pos (f + 1))

thresholds :
    (n : ℕ) (p : QuorumParameters)
    → new_quorum_parameters (pos n) ≡ (p, none)
    → (f : ℕ) × Thresholds n p f
thresholds n p built =
    let (f, lo, hi, en, ep) = (new_quorum_parameters_iff (pos n) p).0 built in
    (
      f,
      record {
        members = ground arith;
        byzantine = ap (λ x. x.max_byzantine) ep;
        votes = ap (λ x. x.quorum) ep;
        shards = ap (λ x. x.recovery_threshold) ep;
        overlap = ap minimum_quorum_intersection ep ∙ minimum_quorum_intersection-tuple_of f lo hi;
      },
    )

-- Two sets of exactly q members can share exactly that many.
quorum_overlap_exact :
    (n : ℕ) (p : QuorumParameters)
    → new_quorum_parameters (pos n) ≡ (p, none)
    → (a : Members) × (b : Members) × (p.quorum ≡ pos (count n a))
      × (p.quorum ≡ pos (count n b))
      × (minimum_quorum_intersection p ≡ returns (pos (count n (both a b))))
quorum_overlap_exact n p built =
    let (f, t) = thresholds n p built in
    let e : n ≡ 3 * f + 1 = t.members in
    let q : ℕ = 2 * f + 1 in
    (
      first q,
      from f,
      t.votes ∙ ap pos (omega (arith, count-first n q)),
      t.votes ∙ ap pos (omega (arith, count-from n f)),
      t.overlap ∙ ap (λ x. returns (pos x)) (omega (arith, count-first-from n q f)),
    )

-- Any two quorums among the n validators have at least `MinimumQuorumIntersection` members in common,
-- that number is the recovery threshold k, and two sets of exactly q members share exactly that many.
pub quorums_overlap :
    (n : ℕ) (p : QuorumParameters) (a b : Members)
    → new_quorum_parameters (pos n) ≡ (p, none)
    → p.quorum ≤ℤ pos (count n a)
    → p.quorum ≤ℤ pos (count n b)
    → (minimum_quorum_intersection p ≡ returns p.recovery_threshold)
      × (p.recovery_threshold ≤ℤ pos (count n (both a b)))
      × ((c : Members) × (d : Members) × (p.quorum ≡ pos (count n c))
          × (p.quorum ≡ pos (count n d))
          × (minimum_quorum_intersection p ≡ returns (pos (count n (both c d)))))
quorums_overlap n p a b built ha hb =
    let (f, t) = thresholds n p built in
    (
      t.overlap ∙ ap returns (sym t.shards),
      ground (arith, t, count-both n a b),
      quorum_overlap_exact n p built,
    )

-- With at most f faulty validators, the honest ones are a quorum by themselves, and any quorum holds
-- at least k honest ones, enough to reconstruct a batch.
honest_suffice :
    (n : ℕ) (p : QuorumParameters) (a faulty : Members)
    → new_quorum_parameters (pos n) ≡ (p, none)
    → p.quorum ≤ℤ pos (count n a)
    → pos (count n faulty) ≤ℤ p.max_byzantine
    → (p.quorum ≤ℤ pos (count n (outside faulty)))
      × (p.recovery_threshold ≤ℤ pos (count n (both a (outside faulty))))
honest_suffice n p a faulty built ha hf =
    let (f, t) = thresholds n p built in
    (
      ground (arith, t, count-outside n faulty),
      ground (arith, t, count-both n a (outside faulty), count-outside n faulty),
    )

-- With at most f faulty validators, any two quorums have an honest validator in common, the honest
-- validators are a quorum by themselves, and a quorum holds at least k honest ones, enough to
-- reconstruct a batch.
pub quorums_share_honest :
    (n : ℕ) (p : QuorumParameters) (a b faulty : Members)
    → new_quorum_parameters (pos n) ≡ (p, none)
    → p.quorum ≤ℤ pos (count n a)
    → p.quorum ≤ℤ pos (count n b)
    → pos (count n faulty) ≤ℤ p.max_byzantine
    → ((v : ℕ) × (v < n) × (a v ≡ true) × (b v ≡ true) × (faulty v ≡ false))
      × (p.quorum ≤ℤ pos (count n (outside faulty)))
      × (p.recovery_threshold ≤ℤ pos (count n (both a (outside faulty))))
quorums_share_honest n p a b faulty built ha hb hf =
    let (f, t) = thresholds n p built in
    let (v, lt, in_both, honest) =
      find_outside n (both a b) faulty (ground (arith, t, count-both n a b)) in
    let (in_a, in_b) = &&-eq-true (a v) (b v) in_both in
    let (enough, shards) = honest_suffice n p a faulty built ha hf in
    ((v, lt, in_a, in_b, honest), enough, shards)
