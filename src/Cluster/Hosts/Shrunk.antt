-- ===== src/Cluster/Hosts/Shrunk.antt =====
-- `Remove` keeps the invariant, and leaves the entry of the removed member in `clientHostToIndex`.
use etcdlabs.Prelude.{
  ℕ, zero, suc, ◌+◌, ◌-◌, ◌<◌, ◌≡◌, refl, ap, subst, ◌∙◌, ◌≢◌, ◌⊎◌, inl, inr, Option, none, some,
  List, [], ◌∷◌, arith, ret, Exec-cases, Text, length, get_elem?, erase_idx, All, Option-cases,
  text_eq_iff, text_eq_refl, length-set, length-erase_idx, length-erase_idx_le, All-erase_idx,
  get_elem?-some_lt,
}
use etcdlabs.Cluster.Types.{Platform, Url, Member, Cluster, lookup, insert, lookup-insert}
use etcdlabs.Cluster.Member
use etcdlabs.Cluster.Build.{client_host}
use etcdlabs.Cluster.Ops.{remove, take_out, reindex, RemoveEvent}
use etcdlabs.Cluster.View.{find_index}
use etcdlabs.Cluster.Hosts.{WellFormed, Hosted, AllHosted, urls_of}
use etcdlabs.Cluster.Removal.{remove-inv}
use etcdlabs.Cluster.Hosts.Kept.{stop-urls, urls_of-set}
use etcdlabs.Cluster.Hosts.Lookup.{member-Hosted, get_host-client_host}

-- The lists of URLs are hosted at the indices `ks`, which all differ.
abbrev Spread : ℕ → List (Text × ℕ) → List ℕ → List (List Url) → Type 0
Spread base hosts [] [] = Unit {0}
Spread base hosts [] (us ∷ uss) = ⊥
Spread base hosts (k ∷ ks) [] = ⊥
Spread base hosts (k ∷ ks) (us ∷ uss) =
    Hosted base hosts k us × All (λ l. l ≢ k) ks × Spread base hosts ks uss

-- The indices from `i` on, one for each list.
abbrev upfrom : ℕ → List (List Url) → List ℕ
upfrom i [] = []
upfrom i (us ∷ uss) = i ∷ upfrom (suc i) uss

upfrom-ne : (k i : ℕ) (uss : List (List Url)) → k < i → All (λ l. l ≢ k) (upfrom i uss)
upfrom-ne k i [] h = tt
upfrom-ne k i (us ∷ uss) h = (omega arith, upfrom-ne k (suc i) uss (omega arith))

upfrom-Spread :
    (base i : ℕ) (hosts : List (Text × ℕ)) (uss : List (List Url))
    → AllHosted base hosts i uss
    → Spread base hosts (upfrom i uss) uss
upfrom-Spread base i hosts [] a = tt
upfrom-Spread base i hosts (us ∷ uss) (one, more) =
    (one, upfrom-ne i (suc i) uss (omega arith), upfrom-Spread base (suc i) hosts uss more)

erase_idx-Spread :
    (base n : ℕ) (hosts : List (Text × ℕ)) (ks : List ℕ) (uss : List (List Url))
    → Spread base hosts ks uss
    → Spread base hosts (erase_idx ks n) (erase_idx uss n)
erase_idx-Spread base n hosts [] [] s = tt
erase_idx-Spread base n hosts [] (us ∷ uss) s = elim s [ ]
erase_idx-Spread base zero hosts (k ∷ ks) [] s = elim s [ ]
erase_idx-Spread base (suc n) hosts (k ∷ ks) [] s = elim s [ ]
erase_idx-Spread base zero hosts (k ∷ ks) (us ∷ uss) (one, ne, more) = more
erase_idx-Spread base (suc n) hosts (k ∷ ks) (us ∷ uss) (one, ne, more) =
    (one, All-erase_idx (λ l. l ≢ k) ks n ne, erase_idx-Spread base n hosts ks uss more)

erase_idx-upfrom_ne :
    (i n k : ℕ) (uss : List (List Url)) → k ≡ i + n → All (λ l. l ≢ k) (erase_idx (upfrom i uss) n)
erase_idx-upfrom_ne i n k [] h = tt
erase_idx-upfrom_ne i zero k (us ∷ uss) h = upfrom-ne k (suc i) uss (omega arith)
erase_idx-upfrom_ne i (suc n) k (us ∷ uss) h =
    (omega arith, erase_idx-upfrom_ne (suc i) n k uss (omega arith))

urls_of-erase_idx : (ms : List Member) (n : ℕ) → urls_of (erase_idx ms n) ≡ erase_idx (urls_of ms) n
urls_of-erase_idx [] n = refl
urls_of-erase_idx (m ∷ ms) zero = refl
urls_of-erase_idx (m ∷ ms) (suc n) = ap (λ uss. m.cfg.lc_urls ∷ uss) (urls_of-erase_idx ms n)

-- Reindexing sends each member to its new index, and touches no other host.
reindex-Hosted :
    (base j : ℕ) (old hosts hosts' : List (Text × ℕ)) (ks : List ℕ) (ms : List Member)
    → Spread base old ks (urls_of ms)
    → reindex j ms hosts ≡ ret hosts'
    → AllHosted base hosts' j (urls_of ms)
      × ((t : Text) (k : ℕ)
          → lookup t old ≡ some k
          → All (λ l. l ≢ k) ks
          → lookup t hosts' ≡ lookup t hosts)
unfolding reindex
reindex-Hosted base j old hosts hosts' [] [] s e = (tt, λ t k f a. ground arith)
reindex-Hosted base j old hosts hosts' [] (m ∷ ms) s e = elim s [ ]
reindex-Hosted base j old hosts hosts' (k ∷ ks) [] s e = elim s [ ]
reindex-Hosted base j old hosts hosts' (k ∷ ks) (m ∷ ms) (one, ne, more) e =
    let next : reindex (j + 1) ms (insert one.url.host j hosts) ≡ ret hosts' =
      ground (arith, one.first) in
    let (rest, same) =
      reindex-Hosted base (j + 1) old (insert one.url.host j hosts) hosts' ks ms more next in
    let at : lookup (client_host one.port) hosts' ≡ some j =
      same (client_host one.port) k one.found ne
      ∙ rw (one.host_eq, lookup-insert) (ground (arith, text_eq_refl (client_host one.port))) in
    (
      (
        record {
          port = one.port;
          url = one.url;
          below = one.below;
          first = one.first;
          host_eq = one.host_eq;
          found = at;
        },
        subst (λ n. AllHosted base hosts' n (urls_of ms)) (omega arith) rest,
      ),
      λ t l f a.
          same t l f a.1
          ∙ rw lookup-insert
              (ground (arith, text_eq_iff one.url.host t, one.found, one.host_eq, f, a.0)),
    )

-- What a `Remove` that took a member out has done to the cluster.
take_out-hosts :
    (p : Platform) (now i : ℕ) (clus clus' : Cluster)
    → take_out p now i clus ≡ ret clus'
    → (reindex 0 (erase_idx clus.members i) clus.client_host_to_index
        ≡ ret clus'.client_host_to_index)
      × (clus'.size ≡ clus.size - 1)
      × (clus'.base_port ≡ clus.base_port)
      × (urls_of clus'.members ≡ urls_of (erase_idx clus.members i))
      × (length clus'.members ≡ length (erase_idx clus.members i))
      × (i < length (erase_idx clus.members i))
unfolding take_out
take_out-hosts p now i clus clus' e =
    elim (Exec-cases (reindex 0 (erase_idx clus.members i) clus.client_host_to_index)) [
      | inl h ↦ ground (arith, h)
      | inr (hosts, h) ↦ elim (Option-cases (get_elem? (erase_idx clus.members i) i)) [
        | inl q ↦ ground (arith, h, q)
        | inr (m, q) ↦ elim (Exec-cases (Member.stop p now m)) [
          | inl s ↦ ground (arith, h, q, s)
          | inr (m', s) ↦
              let rest = erase_idx clus.members i in
              let u = urls_of-set rest i m m' q (ap (λ c. c.lc_urls) (stop-urls p now m m' s)) in
              let n = length-set rest i m' in
              (
                ground (arith, h, q, s),
                ground (arith, h, q, s),
                ground (arith, h, q, s),
                ground (arith, h, q, s, u),
                ground (arith, h, q, s, n),
                get_elem?-some_lt rest i m q,
              )
        ]
      ]
    ]

-- A `Remove` that returns an error changes nothing.
remove-cases :
    (p : Platform) (ev : RemoveEvent) (i : ℕ) (clus clus' : Cluster) (err : Option Text)
    → remove p ev i clus ≡ ret (clus', err)
    → (clus' ≡ clus) ⊎ ((err ≡ none) × (take_out p ev.now i clus ≡ ret clus'))
unfolding remove
remove-cases p ev i clus clus' err e = elim (Exec-cases (take_out p ev.now i clus)) [
  | inl t ↦ inl (ground (arith, t))
  | inr (c, t) ↦ elim (Option-cases err) [
    | inl fine ↦ inr (fine, ground (arith, t, fine))
    | inr (x, bad) ↦ inl (ground (arith, t, bad))
  ]
]

rest-Spread :
    (clus : Cluster) (i : ℕ)
    → WellFormed clus
    → Spread clus.base_port clus.client_host_to_index
        (erase_idx (upfrom 0 (urls_of clus.members)) i)
        (urls_of (erase_idx clus.members i))
rest-Spread clus i v = rw (urls_of-erase_idx clus.members i) (
    erase_idx-Spread clus.base_port i clus.client_host_to_index (upfrom 0 (urls_of clus.members))
      (urls_of clus.members)
      (upfrom-Spread clus.base_port 0 clus.client_host_to_index (urls_of clus.members) v.hosted))

take_out-WellFormed :
    (p : Platform) (now i : ℕ) (clus clus' : Cluster)
    → WellFormed clus
    → take_out p now i clus ≡ ret clus'
    → WellFormed clus'
take_out-WellFormed p now i clus clus' v e =
    let (h, n, b, u, l, lt) = take_out-hosts p now i clus clus' e in
    let (a, other) =
      reindex-Hosted clus.base_port 0 clus.client_host_to_index clus.client_host_to_index
        clus'.client_host_to_index (erase_idx (upfrom 0 (urls_of clus.members)) i)
        (erase_idx clus.members i) (rest-Spread clus i v) h in
    record {
      sized = omega (
        arith,
        v.sized,
        n,
        l,
        length-erase_idx clus.members i (omega (arith, lt, length-erase_idx_le clus.members i)),
      );
      hosted = rw (b, u) a;
    }

-- `Remove(i)` keeps a cluster well formed, whether it returns an error or not: the members behind
-- the removed one are found at their new indices.
pub remove-WellFormed :
    (p : Platform) (ev : RemoveEvent) (i : ℕ) (clus clus' : Cluster) (err : Option Text)
    → WellFormed clus
    → remove p ev i clus ≡ ret (clus', err)
    → WellFormed clus'
remove-WellFormed p ev i clus clus' err v e = elim (remove-cases p ev i clus clus' err e) [
  | inl same ↦ rw same v
  | inr (fine, t) ↦ take_out-WellFormed p ev.now i clus clus' v t
]

-- The client host of a removed member stays in `clientHostToIndex`: `FindIndex` still gives the index
-- `i` for it, where the member that stood behind it is now.
pub find_index-remove :
    (p : Platform) (ev : RemoveEvent) (i : ℕ) (clus clus' : Cluster) (gone : Member)
    → WellFormed clus
    → get_elem? clus.members i ≡ some gone
    → remove p ev i clus ≡ ret (clus', none)
    → (u : Url) × (get_elem? gone.cfg.lc_urls 0 ≡ some u)
      × (find_index p u.host clus ≡ some i)
      × (find_index p u.host clus' ≡ some i)
unfolding find_index
find_index-remove p ev i clus clus' gone v g e =
    let hosted = member-Hosted clus i gone v g in
    let t = remove-inv p ev i clus clus' e in
    let (h, n, b, u, l, lt) = take_out-hosts p ev.now i clus clus' t in
    let (a, other) =
      reindex-Hosted clus.base_port 0 clus.client_host_to_index clus.client_host_to_index
        clus'.client_host_to_index (erase_idx (upfrom 0 (urls_of clus.members)) i)
        (erase_idx clus.members i) (rest-Spread clus i v) h in
    let stays : lookup (client_host hosted.port) clus'.client_host_to_index ≡ some i =
      other (client_host hosted.port) i hosted.found
        (erase_idx-upfrom_ne 0 i i (urls_of clus.members) (omega arith))
      ∙ hosted.found in
    (
      hosted.url,
      hosted.first,
      rw (hosted.host_eq, get_host-client_host p hosted.port) hosted.found,
      rw (hosted.host_eq, get_host-client_host p hosted.port) stays,
    )
