-- ===== src/Cluster/Servers.antt =====
-- Which embedded servers are open, and what the status of a member says of it: the calls of member.go
-- and `Shutdown` of cluster.go.
pub mod Faults
use etcdlabs.Prelude.{
  ℕ, zero, suc, ◌+◌, ◌≡◌, refl, inl, inr, false, List, [], ◌∷◌, arith, ret, Exec-cases, Text, All,
  length,
}
use etcdlabs.Cluster.Types.{Platform, EmbedConfig, Member, Cluster, new_member}
use etcdlabs.Cluster.Member
use etcdlabs.Cluster.Ops.{stop_from, shutdown}
use etcdlabs.Cluster.Election.{HasServer}
use etcdlabs.Cluster.Shutdown.{shutdown_lem}
use etcdlabs.Cluster.Calm.{CalmLife, Agrees, CalmLife-Agrees, stop-Agrees}

-- A member that `Start` or `Add` has made, behind calm calls.
abbrev pub HasCalmLife : Platform → Member → Type 0
HasCalmLife p m = (cfg : EmbedConfig) × (endpoint : Text) × CalmLife p (new_member cfg endpoint) m

HasCalmLife-Agrees : (p : Platform) (m : Member) → HasCalmLife p m → Agrees m
unfolding new_member
HasCalmLife-Agrees p m (cfg, endpoint, l) = CalmLife-Agrees p refl l

abbrev pub IsClosed : Member → Type 0
IsClosed m = m.srv_open ≡ false

stop_from-IsClosed :
    (p : Platform) (now : ℕ → ℕ) (i n : ℕ) (ms ms' : List Member)
    → n ≡ length ms
    → All (HasCalmLife p) ms
    → stop_from p now i n ms ≡ ret ms'
    → All IsClosed ms'
unfolding stop_from
stop_from-IsClosed p now i zero [] ms' h a e = ground arith
stop_from-IsClosed p now i zero (m ∷ ms) ms' h a e = absurd (omega arith)
stop_from-IsClosed p now i (suc n) [] ms' h a e = absurd (omega arith)
stop_from-IsClosed p now i (suc n) (m ∷ ms) ms' h (one, a) e =
    elim (Exec-cases (Member.stop p (now i) m)) [
      | inl s ↦ ground (arith, s)
      | inr (m₁, s) ↦ elim (Exec-cases (stop_from p now (i + 1) n ms)) [
        | inl q ↦ ground (arith, s, q)
        | inr (ms₁, q) ↦
            let closed = (stop-Agrees p (now i) m m₁ (HasCalmLife-Agrees p m one) s).1 in
            let others = stop_from-IsClosed p now (i + 1) n ms ms₁ (omega arith) a q in
            let same : ms' ≡ m₁ ∷ ms₁ = ground (arith, s, q) in rw same (closed, others)
      ]
    ]

-- If every member of an open cluster has had a calm life and has a server, then `Shutdown` returns, and
-- it has closed every server. In a calm life nothing goes wrong behind the launch of a server, and a
-- status fetch gets an answer exactly from an open server.
pub shutdown-IsClosed :
    (p : Platform) (now : ℕ → ℕ) (clus : Cluster)
    → clus.stopc_closed ≡ false
    → clus.size ≡ length clus.members
    → All HasServer clus.members
    → All (HasCalmLife p) clus.members
    → (clus' : Cluster) × (shutdown p now clus ≡ ret clus') × All IsClosed clus'.members
unfolding shutdown
shutdown-IsClosed p now clus o sized servers a =
    let (clus', e, down, l, closed, done, removed, again) =
      shutdown_lem p now clus o sized servers in
    elim (Exec-cases (stop_from p now 0 clus.size clus.members)) [
      | inl q ↦ ground (arith, o, q, e)
      | inr (ms, q) ↦
          let same : clus'.members ≡ ms = ground (arith, o, q, e) in
          (clus', e, rw same (stop_from-IsClosed p now 0 clus.size clus.members ms sized a q))
    ]
