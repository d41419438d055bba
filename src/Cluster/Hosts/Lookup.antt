-- ===== src/Cluster/Hosts/Lookup.antt =====
-- Finding a member by its endpoint, and the endpoints by the members.
use etcdlabs.Prelude.{
  contains-append, ℕ, zero, suc, ◌+◌, ◌≡◌, refl, subst, true, some, List, [], ◌∷◌, arith, Text,
  codes, contains, get_elem?,
}
use etcdlabs.Cluster.Types.{Url, url_string, Platform, Member, Cluster}
use etcdlabs.Cluster.Build.{client_host}
use etcdlabs.Cluster.Ops.{get_host}
use etcdlabs.Cluster.View.{find_index}
use etcdlabs.Cluster.Hosts.{urls_of, Hosted, AllHosted, WellFormed, contains-client_host}

get_elem?-urls_of :
    (ms : List Member) (j : ℕ) (m : Member)
    → get_elem? ms j ≡ some m
    → get_elem? (urls_of ms) j ≡ some m.cfg.lc_urls
get_elem?-urls_of [] j m e = cc
get_elem?-urls_of (n ∷ ms) zero m e = ground arith
get_elem?-urls_of (n ∷ ms) (suc j) m e = get_elem?-urls_of ms j m e

AllHosted-at :
    (base : ℕ) (hosts : List (Text × ℕ)) (i j k : ℕ) (uss : List (List Url)) (us : List Url)
    → AllHosted base hosts i uss
    → get_elem? uss j ≡ some us
    → i + j ≡ k
    → Hosted base hosts k us
AllHosted-at base hosts i j k [] us a e h = cc
AllHosted-at base hosts i zero k (vs ∷ uss) us a e h =
    let same : i ≡ k = omega arith in
    let eq : vs ≡ us = ground arith in
    subst (Hosted base hosts k) eq (subst (λ n. Hosted base hosts n vs) same a.0)
AllHosted-at base hosts i (suc j) k (vs ∷ uss) us a e h =
    AllHosted-at base hosts (suc i) j k uss us a.1 e (omega arith)

pub member-Hosted :
    (clus : Cluster) (j : ℕ) (m : Member)
    → WellFormed clus
    → get_elem? clus.members j ≡ some m
    → Hosted clus.base_port clus.client_host_to_index j m.cfg.lc_urls
member-Hosted clus j m v e =
    AllHosted-at clus.base_port clus.client_host_to_index 0 j j (urls_of clus.members) m.cfg.lc_urls
      v.hosted (get_elem?-urls_of clus.members j m e) (omega arith)

pub get_host-client_host : (p : Platform) (q : ℕ) → get_host p (client_host q) ≡ client_host q
unfolding get_host
get_host-client_host p q = ground (arith, contains-client_host q)

get_host-url_string :
    (p : Platform) (u : Url)
    → p.url_host (url_string u) ≡ some u.host
    → get_host p (url_string u) ≡ u.host
unfolding get_host
get_host-url_string p u e = rw (e, get_host, has) refl
  where
    has : contains (url_string u) (codes "://") ≡ true
    has = unfold url_string in contains-append u.scheme (codes "://") u.host

-- In a well-formed cluster `FindIndex` takes the client host of a member back to the member, and the
-- member's client URL too, if `url.Parse` finds the host of that URL.
pub find_index-endpoint :
    (p : Platform) (clus : Cluster) (j : ℕ) (m : Member)
    → WellFormed clus
    → get_elem? clus.members j ≡ some m
    → ((u : Url) → get_elem? m.cfg.lc_urls 0 ≡ some u → p.url_host (url_string u) ≡ some u.host)
    → (u : Url) × (get_elem? m.cfg.lc_urls 0 ≡ some u)
      × (find_index p u.host clus ≡ some j)
      × (find_index p (url_string u) clus ≡ some j)
unfolding find_index
find_index-endpoint p clus j m v e parses =
    let h = member-Hosted clus j m v e in
    (
      h.url,
      h.first,
      rw (h.host_eq, get_host-client_host p h.port) h.found,
      rw (get_host-url_string p h.url (parses h.url h.first), h.host_eq) h.found,
    )
