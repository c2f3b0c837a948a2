-- ===== src/Scale/Cpus.antt =====
-- zram_scale/zram_drv.c: the buffers of each CPU, and the events on which they are allocated and freed.
use compcache.Common.{ℕ, ◌+◌, ◌-◌, Bool, true, false, ◌&&◌, List, [], ◌∷◌, if◌then◌else◌, update}

-- The events of `zram_cpu_notify`.
pub data Action : Type 0 where
  cpu_up_prepare : Action
  cpu_dead : Action
  cpu_up_canceled : Action
  other_action : Action

-- The pointers of each CPU, as the Boolean of their test, and how many allocations of each kind that
-- were made for the CPU the kernel still holds.
pub record Cpus : Type 0 where
  pub compress_buffer : ℕ → Bool
  pub compress_workmem : ℕ → Bool
  pub buffers_held : ℕ → ℕ
  pub workmems_held : ℕ → ℕ

-- Whether `__get_free_pages` and `kzalloc` give memory for a CPU.
abbrev pub Grants : Type 0
Grants = ℕ → Bool × Bool

abbrev pub one_if : Bool → ℕ
one_if b = if b then 1 else 0

unfoldable pub cpu_prepare : Grants → ℕ → Cpus → Cpus
cpu_prepare grants cpu c = record {
  compress_buffer = update c.compress_buffer cpu ((grants cpu).0);
  compress_workmem = update c.compress_workmem cpu ((grants cpu).1);
  buffers_held = update c.buffers_held cpu (c.buffers_held cpu + one_if ((grants cpu).0));
  workmems_held = update c.workmems_held cpu (c.workmems_held cpu + one_if ((grants cpu).1));
}

-- The second free is of the pointer that the first has cleared.
unfoldable pub cpu_release : ℕ → Cpus → Cpus
cpu_release cpu c = record c {
  compress_buffer = update c.compress_buffer cpu false;
  buffers_held = update c.buffers_held cpu (c.buffers_held cpu - one_if (c.compress_buffer cpu));
}

unfoldable pub zram_cpu_notify : Grants → Action → ℕ → Cpus → Cpus
zram_cpu_notify grants cpu_up_prepare cpu c = cpu_prepare grants cpu c
zram_cpu_notify grants cpu_dead cpu c = cpu_release cpu c
zram_cpu_notify grants cpu_up_canceled cpu c = cpu_release cpu c
zram_cpu_notify grants other_action cpu c = c

abbrev pub has_buffers : ℕ → Cpus → Bool
has_buffers cpu c = c.compress_buffer cpu && c.compress_workmem cpu

-- The loop of `zram_init` over the online CPUs: whether each has got its buffers.
unfoldable pub prepare_cpus : Grants → List ℕ → Cpus → Bool × Cpus
prepare_cpus grants [] c = (true, c)
prepare_cpus grants (cpu ∷ cpus) c =
    let c' = zram_cpu_notify grants cpu_up_prepare cpu c in
    let rest = prepare_cpus grants cpus c' in if has_buffers cpu c' then rest else (false, c')

-- The loop at the label `out`, and that of `zram_exit`.
unfoldable pub cancel_cpus : Grants → List ℕ → Cpus → Cpus
cancel_cpus grants [] c = c
cancel_cpus grants (cpu ∷ cpus) c =
    cancel_cpus grants cpus (zram_cpu_notify grants cpu_up_canceled cpu c)
