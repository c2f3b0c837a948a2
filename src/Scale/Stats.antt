-- ===== src/Scale/Stats.antt =====
-- zram_scale: the counters per CPU are one counter.
use compcache.Common.{
  ℕ, zero, suc, ◌+◌, ◌%◌, ◌^◌, ◌≤◌, ◌<◌, ◌≡◌, ◌≢◌, refl, ◌∙◌, inl, inr, true, false, ◌==◌, arith,
  Bool-cases,
}
use compcache.Scale.{Zram, zram_add_stat, sum_stat, zram_get_stat}

-- What the sum begins with is added to the sum.
sum_stat-start :
    (n cpu idx val v : ℕ) (stats : ℕ → ℕ → ℕ)
    → sum_stat n cpu idx ((val + v) % 2 ^ 64) stats
      ≡ (sum_stat n cpu idx (val % 2 ^ 64) stats + v) % 2 ^ 64
unfolding sum_stat
sum_stat-start zero cpu idx val v stats = omega arith
sum_stat-start (suc n) cpu idx val v stats =
    let one : ((val + v) % 2 ^ 64 + stats cpu idx) % 2 ^ 64 ≡ (val + stats cpu idx + v) % 2 ^ 64 =
      omega arith in
    let two : (val % 2 ^ 64 + stats cpu idx) % 2 ^ 64 ≡ (val + stats cpu idx) % 2 ^ 64 =
      omega arith in
    rw (one, two) (sum_stat-start n (suc cpu) idx (val + stats cpu idx) v stats)

-- CPUs that are not summed up do not count.
sum_stat-other :
    (n cpu idx val : ℕ) (stats stats' : ℕ → ℕ → ℕ)
    → ((c : ℕ) → cpu ≤ c → c < cpu + n → stats' c idx ≡ stats c idx)
    → sum_stat n cpu idx val stats' ≡ sum_stat n cpu idx val stats
unfolding sum_stat
sum_stat-other zero cpu idx val stats stats' same = refl
sum_stat-other (suc n) cpu idx val stats stats' same =
    rw (same cpu (omega arith) (omega arith))
      (sum_stat-other n (suc cpu) idx _ stats stats' (λ c a b. same c (omega arith) (omega arith)))

-- One of the CPUs that are summed up has counted `v`.
sum_stat-add :
    (n from cpu idx val v : ℕ) (stats stats' : ℕ → ℕ → ℕ)
    → from ≤ cpu
    → cpu < from + n
    → stats' cpu idx ≡ (stats cpu idx + v) % 2 ^ 64
    → ((c : ℕ) → c ≢ cpu → stats' c idx ≡ stats c idx)
    → sum_stat n from idx (val % 2 ^ 64) stats'
      ≡ (sum_stat n from idx (val % 2 ^ 64) stats + v) % 2 ^ 64
unfolding sum_stat
sum_stat-add zero from cpu idx val v stats stats' lo hi at other = absurd (omega arith)
sum_stat-add (suc n) from cpu idx val v stats stats' lo hi at other =
    elim (Bool-cases (from == cpu)) [
      | inl e ↦
          let q : from ≡ cpu = ground arith in
          let here : (val % 2 ^ 64 + stats' from idx) % 2 ^ 64
              ≡ (val + stats from idx + v) % 2 ^ 64 =
            rw q (omega (arith, at)) in
          let two : (val % 2 ^ 64 + stats from idx) % 2 ^ 64 ≡ (val + stats from idx) % 2 ^ 64 =
            omega arith in
          rw (here, two)
            (sum_stat-other n (suc from) idx _ stats stats' (λ c a b. other c (omega arith))
              ∙ sum_stat-start n (suc from) idx (val + stats from idx) v stats)
      | inr d ↦
          let ne : from ≢ cpu = ground arith in
          let two : (val % 2 ^ 64 + stats from idx) % 2 ^ 64 ≡ (val + stats from idx) % 2 ^ 64 =
            omega arith in
          rw (other from ne, two)
            (sum_stat-add n (suc from) cpu idx (val + stats from idx) v stats stats' (omega arith)
              (omega arith) at other)
    ]

-- Where the CPU is one of the possible CPUs, `zram_add_stat` on it changes the sum that `zram_get_stat`
-- returns for that counter by the value, modulo 2^64, and leaves the sum of every other counter.
pub zram_get_stat-add :
    (cpus cpu idx val : ℕ) (z : Zram)
    → cpu < cpus
    → (zram_get_stat cpus idx (zram_add_stat cpu idx val z)
        ≡ (zram_get_stat cpus idx z + val) % 2 ^ 64)
      × ((i : ℕ)
          → i ≢ idx
          → zram_get_stat cpus i (zram_add_stat cpu idx val z) ≡ zram_get_stat cpus i z)
unfolding zram_get_stat zram_add_stat
zram_get_stat-add cpus cpu idx val z lt =
    let self : (cpu == cpu) ≡ true = ground arith in
    let self' : (idx == idx) ≡ true = ground arith in
    (
      sum_stat-add cpus 0 cpu idx 0 val z.stats _ (omega arith) (omega arith)
          (rw (self, self') refl) (λ c d. let q : (c == cpu) ≡ false = ground arith in rw q refl),
      λ i d. sum_stat-other cpus 0 i 0 z.stats _ (λ c _ _. elim (Bool-cases (c == cpu)) [
        | inl e ↦
            let q : c ≡ cpu = ground arith in
            let n : (i == idx) ≡ false = ground arith in rw (e, n, q) refl
        | inr n ↦ rw n refl
      ]),
    )
