-- ===== src/Cluster/Refresh.antt =====
-- What a round of `UpdateMemberStatus` keeps of the members: their number, their order, their servers.
use etcdlabs.Prelude.{
  ℕ, zero, suc, ◌+◌, ◌<◌, ◌≡◌, refl, ap, ◌∙◌, inl, inr, Option, some, List, [], ◌∷◌, arith, ret,
  Exec-cases, Text, get_elem?, All, length,
}
use etcdlabs.Cluster.Types.{Platform, Member, Cluster}
use etcdlabs.Cluster.Status.{FetchEvent, fetch_member_status, fetch_hash, refreshed, refresh_from}
use etcdlabs.Cluster.Election.{HasServer}

fetch-srv :
    (p : Platform) (ev : FetchEvent) (clus : Cluster) (m m' : Member) (err : Option Text)
    → fetch_member_status p ev clus m ≡ ret (m', err)
    → m'.srv ≡ m.srv
unfolding fetch_member_status fetch_hash
fetch-srv p ev clus m m' err e = ground arith

pub refreshed-srv :
    (p : Platform) (ev : FetchEvent) (clus : Cluster) (m : Member)
    → (refreshed p ev clus m).srv ≡ m.srv
unfolding refreshed
refreshed-srv p ev clus m = elim (Exec-cases (fetch_member_status p ev clus m)) [
  | inl q ↦ ground (arith, q)
  | inr ((m', err), q) ↦ ground (arith, q, fetch-srv p ev clus m m' err q)
]

pub refresh_from-HasServer :
    (p : Platform) (evs : ℕ → FetchEvent) (clus : Cluster) (i n : ℕ) (ms : List Member)
    → All HasServer ms
    → All HasServer (refresh_from p evs clus i n ms)
unfolding refresh_from
refresh_from-HasServer p evs clus i zero ms a = a
refresh_from-HasServer p evs clus i (suc n) [] a = tt
refresh_from-HasServer p evs clus i (suc n) (m ∷ ms) ((srv, e), a) =
    ((srv, refreshed-srv p (evs i) clus m ∙ e), refresh_from-HasServer p evs clus (i + 1) n ms a)

pub refresh_from-get :
    (p : Platform) (evs : ℕ → FetchEvent) (clus : Cluster) (k n i : ℕ) (ms : List Member)
    (m : Member)
    → i < n
    → get_elem? ms i ≡ some m
    → get_elem? (refresh_from p evs clus k n ms) i ≡ some (refreshed p (evs (k + i)) clus m)
unfolding refresh_from
refresh_from-get p evs clus k zero i ms m h e = elim h [ ]
refresh_from-get p evs clus k (suc n) i [] m h e = cc
refresh_from-get p evs clus k (suc n) zero (x ∷ ms) m h e =
    let same : k + 0 ≡ k = omega arith in rw same (ground arith)
refresh_from-get p evs clus k (suc n) (suc i) (x ∷ ms) m h e =
    let next : k + suc i ≡ k + 1 + i = omega arith in
    rw next (refresh_from-get p evs clus (k + 1) n i ms m (omega arith) e)

pub length-refresh_from :
    (p : Platform) (evs : ℕ → FetchEvent) (clus : Cluster) (k n : ℕ) (ms : List Member)
    → length (refresh_from p evs clus k n ms) ≡ length ms
unfolding refresh_from
length-refresh_from p evs clus k zero ms = refl
length-refresh_from p evs clus k (suc n) [] = refl
length-refresh_from p evs clus k (suc n) (m ∷ ms) =
    ap suc (length-refresh_from p evs clus (k + 1) n ms)
