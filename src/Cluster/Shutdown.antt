-- ===== src/Cluster/Shutdown.antt =====
-- `Shutdown` of cluster.go stops every member.
use etcdlabs.Prelude.{
  Exec-cases, ℕ, zero, suc, ◌+◌, ◌≡◌, refl, panics, true, false, List, [], ◌∷◌, ◌++◌, arith, ret,
  length, All, inl, inr,
}
use etcdlabs.Clusterpb.{is_stopped}
use etcdlabs.Cluster.Types.{Platform, Member, Cluster}
use etcdlabs.Cluster.Member
use etcdlabs.Cluster.Ops.{stop_from, shutdown}
use etcdlabs.Cluster.View.{active, active_node_n}
use etcdlabs.Cluster.Election.{HasServer}

stop_total :
    (p : Platform) (now : ℕ) (m : Member)
    → HasServer m
    → (m' : Member) × (Member.stop p now m ≡ ret m') × (is_stopped m'.status.state ≡ true)
unfolding Member.stop
stop_total p now m (srv, e) = elim (Exec-cases (Member.stop p now m)) [
  | inl broken ↦ ground (arith, broken, e)
  | inr (m', s) ↦ (m', s, ground (arith, s, e))
]

stop_from_total :
    (p : Platform) (now : ℕ → ℕ) (i n : ℕ) (ms : List Member)
    → n ≡ length ms
    → All HasServer ms
    → (ms' : List Member) × (stop_from p now i n ms ≡ ret ms')
      × (active ms' ≡ 0)
      × (length ms' ≡ length ms)
unfolding stop_from active
stop_from_total p now i zero [] h a = ([], refl, refl, refl)
stop_from_total p now i zero (m ∷ ms) h a = absurd (omega arith)
stop_from_total p now i (suc n) [] h a = absurd (omega arith)
stop_from_total p now i (suc n) (m ∷ ms) h (one, a) =
    let (m', e, down) = stop_total p (now i) m one in
    let (ms', e', none_up, l) = stop_from_total p now (i + 1) n ms (omega arith) a in
    (m' ∷ ms', rw (e, e') refl, rw down none_up, omega arith)

-- If the stop channel is open, `size` counts the members and every member has a server, `Shutdown`
-- returns. Then no member runs, the channel is closed, the root context is cancelled, and the root
-- directory is the last one removed. A second `Shutdown` panics.
pub shutdown_lem :
    (p : Platform) (now : ℕ → ℕ) (clus : Cluster)
    → clus.stopc_closed ≡ false
    → clus.size ≡ length clus.members
    → All HasServer clus.members
    → (clus' : Cluster) × (shutdown p now clus ≡ ret clus')
      × (active_node_n clus' ≡ 0)
      × (length clus'.members ≡ length clus.members)
      × (clus'.stopc_closed ≡ true)
      × (clus'.root_done ≡ true)
      × (clus'.removed_dirs ≡ clus.removed_dirs ++ clus.root_dir ∷ [])
      × ((later : ℕ → ℕ) → shutdown p later clus' ≡ panics)
unfolding shutdown active_node_n
shutdown_lem p now clus o sized a =
    let (ms, e, down, l) = stop_from_total p now 0 clus.size clus.members sized a in
    (
      record clus {
        members = ms;
        root_done = true;
        stopc_closed = true;
        removed_dirs = clus.removed_dirs ++ clus.root_dir ∷ [];
      },
      rw (o, e) refl,
      down,
      l,
      refl,
      refl,
      refl,
      (λ later. refl),
    )
