-- ===== src/ShardPool/Balance.antt =====
-- How `StartFork` of net/src/shard_pool.cpp spreads the forks over the shards.
use mod_audio_fork.Common.{
  ℕ, zero, suc, ◌+◌, ◌≤◌, ◌<◌, ◌^◌, ◌≡◌, refl, sym, ap, subst, ◌⊎◌, Bool-cases, inl, inr, Option,
  none, some, List, [], ◌∷◌, ltb, ltb→lt, length, add64, arith,
}
use native.Mathlib.Decide.{dec_lt}
use mod_audio_fork.ShardPool.{
  Shard, adopt, shard_loads, modify, least_from, least_loaded, ShardPool, place, start_fork,
}

abbrev pub nth : List ℕ → ℕ → ℕ
nth [] i = 0
nth (n ∷ ns) zero = n
nth (n ∷ ns) (suc i) = nth ns i

abbrev pub AtLeast : ℕ → List ℕ → Type 0
AtLeast k [] = Unit
AtLeast k (n ∷ ns) = (k ≤ n) × AtLeast k ns

AtLeast-mono : (j k : ℕ) (ns : List ℕ) → j ≤ k → AtLeast k ns → AtLeast j ns
AtLeast-mono j k [] l h = tt
AtLeast-mono j k (n ∷ ns) l h = (omega (arith, h.0), AtLeast-mono j k ns l h.1)

-- The position that the search returns: of the best so far, or of a smaller load that follows.
record Later (load next : ℕ) (ns : List ℕ) (p : ℕ) : Type 0 where
  index : ℕ
  place : p ≡ next + index
  range : index < length ns
  smaller : nth ns index < load
  least : AtLeast (nth ns index) ns

-- Found behind a load that is no better than one found before.
Later-suc :
    (load load' next n p : ℕ) (ns : List ℕ)
    → load' ≤ n
    → load' ≤ load
    → Later load' (next + 1) ns p
    → Later load next (n ∷ ns) p
Later-suc load load' next n p ns h k l = record {
  index = suc l.index;
  place = omega (arith, l.place);
  range = omega (arith, l.range);
  smaller = omega (arith, l.smaller);
  least = (omega (arith, l.smaller), l.least);
}

least_from-least :
    (best load next : ℕ) (ns : List ℕ)
    → ((least_from best load next ns ≡ best) × AtLeast load ns)
      ⊎ Later load next ns (least_from best load next ns)
unfolding least_from
least_from-least best load next [] = inl (refl, tt)
least_from-least best load next (n ∷ ns) = elim (Bool-cases (ltb n load)) [
  | inl better ↦
      let b = ltb→lt n load better in
      rw better (elim (least_from-least next n (next + 1) ns) [
        | inl (here, least) ↦ inr (record {
          index = 0;
          place = omega (arith, here);
          range = omega arith;
          smaller = b;
          least = (omega arith, least);
        })
        | inr later ↦ inr (
            Later-suc load n next n (least_from next n (next + 1) ns) ns (omega arith) (omega arith)
              later)
      ])
  | inr worse ↦
      let w : load ≤ n = ground arith in
      rw worse (elim (least_from-least best load (next + 1) ns) [
        | inl (same, least) ↦ inl (same, (w, least))
        | inr later ↦ inr (
            Later-suc load load next n (least_from best load (next + 1) ns) ns w (omega arith)
              later)
      ])
]

-- The position of a load that is not above any.
abbrev pub IsLeast : ℕ → List ℕ → Type 0
IsLeast i ns = (i < length ns) × AtLeast (nth ns i) ns

pub least_loaded-IsLeast : (n : ℕ) (ns : List ℕ) → IsLeast (least_loaded (n ∷ ns)) (n ∷ ns)
unfolding least_loaded
least_loaded-IsLeast n ns = elim (least_from-least 0 n 1 ns) [
  | inl (here, least) ↦
      subst (λ i. IsLeast i (n ∷ ns)) (sym here) (omega arith, (omega arith, least))
  | inr l ↦
      let at : suc l.index ≡ least_from 0 n 1 ns = omega (arith, l.place) in
      subst (λ i. IsLeast i (n ∷ ns)) at
        (omega (arith, l.range), (omega (arith, l.smaller), l.least))
]

-- One more on a shard.
abbrev bump : ℕ → List ℕ → List ℕ
bump i [] = []
bump zero (n ∷ ns) = add64 n 1 ∷ ns
bump (suc i) (n ∷ ns) = n ∷ bump i ns

modify-bump :
    {S : Type 0} (i : ℕ) (s : S) (shards : List (Shard S))
    → shard_loads (modify i (adopt s) shards) ≡ bump i (shard_loads shards)
unfolding modify adopt
modify-bump i s [] = refl
modify-bump zero s (x ∷ xs) = refl
modify-bump (suc i) s (x ∷ xs) = ap (λ ns. x.load ∷ ns) (modify-bump i s xs)

-- All loads are `k` or one more.
abbrev pub Within : ℕ → List ℕ → Type 0
Within k [] = Unit
Within k (n ∷ ns) = ((k ≤ n) × (n ≤ k + 1)) × Within k ns

bump-Within :
    (k i : ℕ) (ns : List ℕ) → k + 1 < 2 ^ 64 → nth ns i ≡ k → Within k ns → Within k (bump i ns)
bump-Within k i [] l e w = tt
bump-Within k zero (n ∷ ns) l e w = ((omega (arith, w.0.0), omega (arith, w.0.0)), w.1)
bump-Within k (suc i) (n ∷ ns) l e w = (w.0, bump-Within k i ns l e w.1)

nth-Within :
    (k i : ℕ) (ns : List ℕ) → i < length ns → Within k ns → (k ≤ nth ns i) × (nth ns i ≤ k + 1)
nth-Within k i [] h w = absurd (omega arith)
nth-Within k zero (n ∷ ns) h w = w.0
nth-Within k (suc i) (n ∷ ns) h w = nth-Within k i ns (omega arith) w.1

raised : (k : ℕ) (ns : List ℕ) → AtLeast (k + 1) ns → Within k ns → Within (k + 1) ns
raised k [] h w = tt
raised k (n ∷ ns) h w = ((h.0, omega (arith, w.0.1)), raised k ns h.1 w.1)

bump_least :
    (k i : ℕ) (ns : List ℕ)
    → k + 2 < 2 ^ 64
    → i < length ns
    → AtLeast (nth ns i) ns
    → Within k ns
    → (j : ℕ) × Within j (bump i ns)
bump_least k i ns l h a w =
    let (low, high) = nth-Within k i ns h w in
    elim (dec_lt k (nth ns i)) [
      | yes up ↦
          let e : nth ns i ≡ k + 1 = omega arith in
          (k + 1, bump-Within (k + 1) i ns (omega arith) e (raised k ns (rw e at a) w))
      | no same ↦ (k, bump-Within k i ns (omega arith) (omega arith) w)
    ]

bump_chosen :
    (k : ℕ) (ns : List ℕ)
    → k + 2 < 2 ^ 64
    → Within k ns
    → (j : ℕ) × Within j (bump (least_loaded ns) ns)
bump_chosen k [] l w = (k, tt)
bump_chosen k (n ∷ ns) l w =
    let (range, least) = least_loaded-IsLeast n ns in
    bump_least k (least_loaded (n ∷ ns)) (n ∷ ns) l range least w

place-spreads :
    {S : Type 0} (o : Option S) (pool : ShardPool S) (k : ℕ)
    → k + 2 < 2 ^ 64
    → Within k (shard_loads pool.shards)
    → (j : ℕ) × Within j (shard_loads (place o pool).0.shards)
unfolding place
place-spreads none pool k l w = (k, w)
place-spreads (some s) pool k l w =
    let loads = shard_loads pool.shards in
    let (j, after) = bump_chosen k loads l w in
    (j, subst (Within j) (sym (modify-bump (least_loaded loads) s pool.shards)) after)

-- Shards whose loads are a number or one more are so, for some number, when one more fork is
-- started, created or not.
pub start_fork_spreads :
    {S : Type 0} (create : (seed : ℕ) → Option S) (pool : ShardPool S) (k : ℕ)
    → k + 2 < 2 ^ 64
    → Within k (shard_loads pool.shards)
    → (j : ℕ) × Within j (shard_loads (start_fork create pool).0.shards)
unfolding start_fork
start_fork_spreads create pool k l w =
    place-spreads (create (add64 pool.next_fork_id 1))
      (record pool { next_fork_id = add64 pool.next_fork_id 1 }) k l w
