-- ===== src/Cluster/Hosts.antt =====
-- The invariant of a cluster: `size` counts the members, every member listens on a client URL whose
-- host is `localhost` with a port below `basePort`, and `clientHostToIndex` sends it to the member.
pub mod Loop
pub mod Built
pub mod Lookup
pub mod Kept
pub mod Grown
pub mod Shrunk
pub mod Reach
use etcdlabs.Prelude.{
  ℕ, suc, ◌+◌, ◌≤◌, ◌<◌, ◌≡◌, refl, ap, subst, ◌≢◌, false, some, List, [], ◌∷◌, ◌++◌, arith, Text,
  codes, text_eq_iff, decimal, decimal_injective, decimal-digits, IsDigit, contains,
  contains_without, length, get_elem?, drop, All, All-append,
}
use etcdlabs.Cluster.Types.{Url, Member, Cluster, insert, lookup, lookup-insert}
use etcdlabs.Cluster.Build.{client_host, host_port}

abbrev pub urls_of : List Member → List (List Url)
urls_of [] = []
urls_of (m ∷ ms) = m.cfg.lc_urls ∷ urls_of ms

-- The `i`-th list of client URLs.
pub record Hosted (base : ℕ) (hosts : List (Text × ℕ)) (i : ℕ) (us : List Url) : Type 0 where
  pub port : ℕ
  pub url : Url
  pub below : port < base
  pub first : get_elem? us 0 ≡ some url
  pub host_eq : url.host ≡ client_host port
  pub found : lookup (client_host port) hosts ≡ some i

abbrev pub AllHosted : ℕ → List (Text × ℕ) → ℕ → List (List Url) → Type 0
AllHosted base hosts i [] = Unit {0}
AllHosted base hosts i (us ∷ uss) = Hosted base hosts i us × AllHosted base hosts (suc i) uss

pub record WellFormed (clus : Cluster) : Type 0 where
  pub sized : clus.size ≡ length clus.members
  pub hosted : AllHosted clus.base_port clus.client_host_to_index 0 (urls_of clus.members)

pub client_host_injective : (a b : ℕ) → client_host a ≡ client_host b → a ≡ b
unfolding client_host host_port
client_host_injective a b e = decimal_injective a b (ap (drop 10) e)

host_byte-ne-slash : (c : ℕ) → IsDigit c → c ≢ b'/'
host_byte-ne-slash c h = omega arith

digits_no_slash : (s : Text) → All IsDigit s → All (λ c. c ≢ b'/') s
digits_no_slash [] h = tt
digits_no_slash (c ∷ s) h = (host_byte-ne-slash c h.0, digits_no_slash s h.1)

-- A host is no URL.
pub contains-client_host : (q : ℕ) → contains (client_host q) (codes "://") ≡ false
unfolding client_host host_port
contains-client_host q = contains_without (client_host q) b':' b'/' (b'/' ∷ []) (
    All-append (λ c. c ≢ b'/') (codes "localhost:") (decimal q) (omega arith)
      (digits_no_slash (decimal q) (decimal-digits q)))

-- A new host at or above every port in use leaves the members that are there where they are.
pub AllHosted-insert :
    (base q k : ℕ) (hosts : List (Text × ℕ)) (i : ℕ) (uss : List (List Url))
    → base ≤ q
    → AllHosted base hosts i uss
    → AllHosted (q + 2) (insert (client_host q) k hosts) i uss
AllHosted-insert base q k hosts i [] h a = tt
AllHosted-insert base q k hosts i (us ∷ uss) h (one, more) = (
  record {
    port = one.port;
    url = one.url;
    below = omega (arith, one.below);
    first = one.first;
    host_eq = one.host_eq;
    found = rw lookup-insert (
        ground (
          arith,
          text_eq_iff (client_host q) (client_host one.port),
          client_host_injective q one.port,
          one.found,
          one.below,
        ));
  },
  AllHosted-insert base q k hosts (suc i) uss h more,
)

pub AllHosted-snoc :
    (base : ℕ) (hosts : List (Text × ℕ)) (i j : ℕ) (uss : List (List Url)) (us : List Url)
    → AllHosted base hosts i uss
    → j ≡ i + length uss
    → Hosted base hosts j us
    → AllHosted base hosts i (uss ++ us ∷ [])
AllHosted-snoc base hosts i j [] us a e h =
    let same : j ≡ i = omega arith in (subst (λ n. Hosted base hosts n us) same h, tt)
AllHosted-snoc base hosts i j (vs ∷ uss) us (one, more) e h =
    (one, AllHosted-snoc base hosts (suc i) j uss us more (omega arith) h)

pub urls_of-append : (ms ns : List Member) → urls_of (ms ++ ns) ≡ urls_of ms ++ urls_of ns
urls_of-append [] ns = refl
urls_of-append (m ∷ ms) ns = rw (urls_of-append ms ns)

pub length-urls_of : (ms : List Member) → length (urls_of ms) ≡ length ms
length-urls_of [] = refl
length-urls_of (m ∷ ms) = ap suc (length-urls_of ms)

-- Equal client URLs, counted members, ports and hosts keep the invariant.
pub WellFormed-same :
    (clus clus' : Cluster)
    → WellFormed clus
    → clus'.size ≡ clus.size
    → clus'.base_port ≡ clus.base_port
    → clus'.client_host_to_index ≡ clus.client_host_to_index
    → urls_of clus'.members ≡ urls_of clus.members
    → WellFormed clus'
WellFormed-same clus clus' v s b h u = record {
  sized =
      omega
        (arith, v.sized, length-urls_of clus.members, length-urls_of clus'.members, ap length u);
  hosted = rw (b, h, u) (v.hosted);
}
